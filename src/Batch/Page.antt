-- ===== src/Batch/Page.antt =====
-- scanner/batch.py: the upload of one page, with the fallback to lower resolutions.
pub mod Ladder
use pms_scanner.Prelude.{
  ℕ, Option, none, some, List, [], ◌∷◌, Text, Exec, Result, ok, raised, pure, ◌>>=◌,
}
use pms_scanner.Uploader.{UploadOutcome, accepted, rejected, failed, Net, upload_page}
use pms_scanner.Pdf.{Imaging, downsample_image}
use pms_scanner.Batch.World.{Outside, Runner}

abbrev pub downsample_dpi_ladder : List ℕ
downsample_dpi_ladder = 150 ∷ 75 ∷ []

module _ (o : Outside) (r : Runner) where
  open o use {imaging}
  open imaging use {Image}

  -- `_upload`
  unfoldable pub upload : Text → ℕ → Image → Exec Net UploadOutcome
  upload name page_num image =
      upload_page o.backend r.limits r.env name page_num (imaging.encode_tiff image)

  -- What the ladder does with the outcome at one resolution.
  abbrev pub after_retry :
      ℕ → UploadOutcome → Exec Net (UploadOutcome × Option ℕ) → Exec Net (UploadOutcome × Option ℕ)
  after_retry dpi accepted rest = pure (accepted, some dpi)
  after_retry dpi failed rest = pure (failed, none)
  after_retry dpi rejected rest = rest

  -- `for dpi in DOWNSAMPLE_DPI_LADDER`
  unfoldable pub ladder : Text → ℕ → Image → List ℕ → Exec Net (UploadOutcome × Option ℕ)
  ladder name page_num image [] = pure (rejected, none)
  ladder name page_num image (dpi ∷ dpis) = do
    outcome ← upload name page_num (downsample_image imaging image dpi)
    after_retry dpi outcome (ladder name page_num image dpis)

  abbrev pub after_full :
      UploadOutcome → Exec Net (UploadOutcome × Option ℕ) → Exec Net (UploadOutcome × Option ℕ)
  after_full rejected rest = rest
  after_full accepted rest = pure (accepted, none)
  after_full failed rest = pure (failed, none)

  -- `_upload_page_with_downsample`
  unfoldable pub upload_page_with_downsample :
      Text → ℕ → Image → Exec Net (UploadOutcome × Option ℕ)
  upload_page_with_downsample name page_num image = do
    outcome ← upload name page_num image
    after_full outcome (ladder name page_num image downsample_dpi_ladder)
