-- ===== src/Pdf.antt =====
-- scanner/pdf_processor.py: the pages of a scan, their orientation, and the smaller renderings.
pub mod Numbering
pub mod Scaling
use Prim.Native.Nat.{max}
use pms_scanner.Prelude.{
  ℕ, zero, suc, ◌+◌, ◌-◌, ◌*◌, ◌/◌, ◌%◌, Bool, true, false, ◌&&◌, ◌||◌, Option, none, some, List,
  [], ◌∷◌, ◌++◌, Text, codes, ltb, leb, ◌==◌, contains, nat_eq, text_eq, if◌then◌else◌, Result, ok,
  raised, length,
}
use mathlib.Core.Option
use pms_scanner.Prelude.Texts.{includes}
use pms_scanner.Prelude.Int.{ℤ, pos, negsuc, neg_of_ℕ}
use pms_scanner.Machine.{strip, is_empty}
use pms_scanner.FileName.{suffix, lower}

-- What `pytesseract.image_to_osd` gives: an exception, a dict with its entry `rotate`, or a text.
pub data Osd : Type 0 where
  osd_error : Osd
  osd_dict : Option ℤ → Osd
  osd_text : Text → Osd

-- PyMuPDF, PIL and Tesseract. `open_pdf` gives the pages of the document, and `open_tiff` the
-- frames, each with its EXIF orientation honoured and converted to RGB.
pub record Imaging : Type 1 where
  pub Image : Type 0
  pub FitzPage : Type 0
  pub open_pdf : Text → Result (List FitzPage)
  pub open_tiff : Text → Result (List Image)
  pub page_rotation : FitzPage → ℕ
  pub get_pixmap : FitzPage → ℕ → Result Image
  pub image_to_osd : Image → Osd
  -- `image.rotate(-degrees, expand=True)`
  pub rotate : Image → ℤ → Image
  pub width : Image → ℕ
  pub height : Image → ℕ
  pub resize : Image → ℕ → ℕ → Image
  pub encode_tiff : Image → Result Text

abbrev pub render_dpi : ℕ
render_dpi = 300

-- A line ends at one of these. That "\r\n" ends one line and not two is no matter here, for an
-- empty line is skipped.
is_line_end : ℕ → Bool
is_line_end c = leb 10 c && leb c 13 || leb 28 c && leb c 30 || c == 133 || c == 8232 || c == 8233

-- The text up to the first character that passes the test, and what stands behind that character.
until : (ℕ → Bool) → Text → Text × Option Text
until p [] = ([], none)
until p (c ∷ s) = elim (p c) [
  | true ↦ ([], some s)
  | false ↦ let (before, rest) = until p s in (c ∷ before, rest)
]

-- `line.split(":")[1]`: `none` is the `IndexError`.
second_field : Text → Option Text
unfolding until
second_field line = elim (until (λ c. c == b':') line).1 [
  | none ↦ none
  | some rest ↦ some (until (λ c. c == b':') rest).0
]

-- The digits of an `int` literal, where one `_` may stand between two digits.
digits_value : ℕ → Bool → Text → Option ℕ
digits_value acc after_digit [] = if after_digit then some acc else none
digits_value acc after_digit (c ∷ s) =
    let digit = digits_value (10 * acc + (c - b'0')) true s in
    let underscore = digits_value acc false s in
    if leb b'0' c && leb c b'9'
    then digit
    else if c == b'_' && after_digit
    then underscore
    else none

-- `int(text)`, for ASCII digits: `none` is the `ValueError`.
signed_value : Text → Option ℤ
unfolding digits_value
signed_value [] = none
signed_value (c ∷ s) =
    if c == b'-'
    then Option.map neg_of_ℕ (digits_value 0 false s)
    else Option.map pos (digits_value 0 false (if c == b'+' then s else c ∷ s))

int : Text → Option ℤ
unfolding signed_value
int text = signed_value (strip text)

-- The value of a line that says "Rotate:".
line_rotate : ℤ → Text → ℤ
unfolding includes second_field int
line_rotate rotate line =
    if includes (codes "Rotate:") line
    then (elim (second_field line) [
      | none ↦ rotate
      | some field ↦ Option.get_or (int field) rotate
    ])
    else rotate

-- The loop over `osd_text.splitlines()`, for a number of lines. The confidence is only logged.
lines_rotate : ℕ → ℤ → Text → ℤ
unfolding until line_rotate is_line_end
lines_rotate zero rotate text = rotate
lines_rotate (suc lines) rotate text =
    let (line, more) = until is_line_end text in
    let now = line_rotate rotate line in
    elim more [ none ↦ now | some rest ↦ lines_rotate lines now rest ]

-- `_parse_osd_string(text)[0]`
unfoldable pub parse_osd_string : Text → ℤ
unfolding lines_rotate
parse_osd_string text = lines_rotate (suc (length text)) (pos 0) text

-- Python's `round(a / b)`: a half goes to the even number.
unfoldable pub round_half_even : ℕ → ℕ → ℕ
round_half_even a b =
    let q = a / b in
    let twice = 2 * (a % b) in
    if ltb twice b then q else if ltb b twice || q % 2 == 1 then q + 1 else q

-- (page_num, image, orientation_uncertain, rotation_applied)
pub record PageImage {ℓ} (Image : Type ℓ) : Type ℓ where
  pub page_num : ℕ
  pub image : Image
  pub orientation_uncertain : Bool
  pub rotation_applied : ℤ

module _ (imaging : Imaging) where
  open imaging use {Image, FitzPage}

  -- `_osd_rotation_from_image`
  unfoldable pub osd_rotation : Image → ℤ × Bool
  osd_rotation image = elim (imaging.image_to_osd image) [
    | osd_error ↦ (pos 0, true)
    | osd_dict rotate ↦ (Option.get_or rotate (pos 0), false)
    | osd_text text ↦ (parse_osd_string text, false)
  ]

  -- `_render_page(page)`, at `RENDER_DPI`
  abbrev pub render_page : FitzPage → Result Image
  render_page page = imaging.get_pixmap page render_dpi

  -- `_detect_orientation`: the metadata, then OSD on the rendered page.
  unfoldable pub detect_orientation : FitzPage → Result (ℤ × Bool)
  unfolding osd_rotation
  detect_orientation page =
      if imaging.page_rotation page == 0
      then elim (render_page page) [ ok image ↦ ok (osd_rotation image) | raised e ↦ raised e ]
      else ok (pos (imaging.page_rotation page), false)

  -- `if rotation_applied: image.rotate(...)`
  unfoldable pub upright : ℤ → Image → Image
  upright (pos zero) image = image
  upright rotation image = imaging.rotate image rotation

  abbrev pub page_image : ℕ → Image → ℤ × Bool → PageImage Image
  page_image page_num image (rotation, uncertain) = record {
    page_num = page_num;
    image = upright rotation image;
    orientation_uncertain = uncertain;
    rotation_applied = rotation;
  }

  abbrev pub one_page : ℕ → FitzPage → Result (PageImage Image)
  one_page page_num page = elim (detect_orientation page) [
    | raised e ↦ raised e
    | ok detected ↦ elim (render_page page) [
      | raised e ↦ raised e
      | ok image ↦ ok (page_image page_num image detected)
    ]
  ]

  abbrev pub cons_page :
      Result (PageImage Image) → Result (List (PageImage Image)) → Result (List (PageImage Image))
  cons_page (raised e) rest = raised e
  cons_page (ok page) (raised e) = raised e
  cons_page (ok page) (ok pages) = ok (page ∷ pages)

  -- The loop of `_process_pdf`, from the page with this number.
  unfoldable pub pdf_pages : ℕ → List FitzPage → Result (List (PageImage Image))
  unfolding detect_orientation upright
  pdf_pages page_num [] = ok []
  pdf_pages page_num (page ∷ pages) =
      cons_page (one_page page_num page) (pdf_pages (page_num + 1) pages)

  -- The loop of `_process_tiff`.
  unfoldable pub tiff_pages : ℕ → List Image → List (PageImage Image)
  unfolding osd_rotation upright
  tiff_pages page_num [] = []
  tiff_pages page_num (frame ∷ frames) =
      page_image page_num frame (osd_rotation frame) ∷ tiff_pages (page_num + 1) frames

  -- `process_pdf`: by the suffix of the name, over the bytes of the file.
  unfoldable pub process_pdf : Text → Text → Result (List (PageImage Image))
  unfolding pdf_pages tiff_pages
  process_pdf name bytes =
      if contains (codes ".tif" ∷ codes ".tiff" ∷ []) (lower (suffix name))
      then elim (imaging.open_tiff bytes) [
        | raised e ↦ raised e
        | ok frames ↦ ok (tiff_pages 1 frames)
      ]
      else elim (imaging.open_pdf bytes) [ raised e ↦ raised e | ok pages ↦ pdf_pages 1 pages ]

  -- `downsample_image`, from `RENDER_DPI`
  unfoldable pub downsample_image : Image → ℕ → Image
  unfolding round_half_even
  downsample_image image to_dpi =
      if leb render_dpi to_dpi
      then image
      else imaging.resize image (max 1 (round_half_even (imaging.width image * to_dpi) render_dpi))
          (max 1 (round_half_even (imaging.height image * to_dpi) render_dpi))
