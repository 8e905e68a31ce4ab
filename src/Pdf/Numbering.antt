-- ===== src/Pdf/Numbering.antt =====
-- The pages that `process_pdf` yields, beside the frames or sheets of the file.
use pms_scanner.Prelude.{
  ℕ, ◌+◌, ◌≡◌, Bool, true, false, List, [], ◌∷◌, Text, codes, contains, text_eq, Result, ok, raised,
}
use pms_scanner.FileName.{suffix, lower}
use pms_scanner.Pdf.{Imaging, PageImage, detect_orientation, osd_rotation, upright}

-- The name of the file says that it is a TIFF.
abbrev pub is_tiff : Text → Bool
is_tiff name = contains (codes ".tif" ∷ codes ".tiff" ∷ []) (lower (suffix name))

module _ (imaging : Imaging) where
  open imaging use {Image, FitzPage}

  -- Page `num` is the frame, turned by the rotation that OSD finds on it.
  pub record IsFrame (num : ℕ) (frame : Image) (p : PageImage Image) : Type 0 where
    pub numbered : p.page_num ≡ num
    pub detected : osd_rotation imaging frame ≡ (p.rotation_applied, p.orientation_uncertain)
    pub turned : p.image ≡ upright imaging p.rotation_applied frame

  -- Page `num` is the sheet at 300 dots per inch, turned by the rotation that is detected on it.
  pub record IsSheet (num : ℕ) (sheet : FitzPage) (p : PageImage Image) : Type 0 where
    pub numbered : p.page_num ≡ num
    pub detected :
        detect_orientation imaging sheet ≡ ok (p.rotation_applied, p.orientation_uncertain)
    pub rendering : Image
    pub rendered : imaging.get_pixmap sheet 300 ≡ ok rendering
    pub turned : p.image ≡ upright imaging p.rotation_applied rendering

  -- One page for each thing, in order, the numbers counted up.
  pub data Each {A : Type 0} (IsPage : ℕ → A → PageImage Image → Type 0)
      : ℕ → List A → List (PageImage Image) → Type 0 where
    none_left : (num : ℕ) → Each IsPage num [] []
    next :
        (num : ℕ) (a : A) (p : PageImage Image) (xs : List A) (ps : List (PageImage Image))
        → IsPage num a p
        → Each IsPage (num + 1) xs ps
        → Each IsPage num (a ∷ xs) (p ∷ ps)

  -- The frames of a TIFF, where the name says that it is one, and else the sheets of a PDF.
  pub data Scanned (name bytes : Text) (pages : List (PageImage Image)) : Type 0 where
    frames :
        (fs : List Image)
        → is_tiff name ≡ true
        → imaging.open_tiff bytes ≡ ok fs
        → Each IsFrame 1 fs pages
        → Scanned name bytes pages
    sheets :
        (ss : List FitzPage)
        → is_tiff name ≡ false
        → imaging.open_pdf bytes ≡ ok ss
        → Each IsSheet 1 ss pages
        → Scanned name bytes pages

  abbrev If : {A : Type 0} → (A → Type 0) → Result A → Type 0
  If P (raised e) = Unit {0}
  If P (ok a) = P a
