-- ===== src/Tests/Files.antt =====
-- The theorems about files, at a claimed scan of two pages.
use pms_scanner.Prelude.{
  ℕ, raised, other_error, arith, ◌≤◌, ◌>>=◌, ◌≡◌, ◌⊎◌, refl, true, none, some, [], ◌∷◌, Text, codes,
  text_eq, nat_eq, length, ok,
}
use pms_scanner.Prelude.Dict
use pms_scanner.FileName.{lower, suffix}
use pms_scanner.State.Laws.{env_state}
use pms_scanner.Uploader.{
  accepted, Net, upload_page, rate_limit_acquire, post, classify, back_off, page_request,
}
use pms_scanner.Uploader.Window.{try_acquire}
use pms_scanner.Prelude.Int.{pos}
use pms_scanner.Tree.{Folder, watch, processed, at, find, path_eq, folder_eq}
use pms_scanner.Tree.Laws.{CanMove}
use pms_scanner.Pdf.Scaling.{IsScaled, downsample_image-IsScaled}
use pms_scanner.Pdf.{PageImage, downsample_image, process_pdf}
use pms_scanner.Batch.Page.{upload, ladder, upload_page_with_downsample}
use pms_scanner.Batch.Page.Ladder.{Descent, Encodable, page_descends, page_requests_bound}
use pms_scanner.Batch.File.{process_file, in_self}
use pms_scanner.Batch.File.Places.{IsDestination, process_file_keeps_file}
use pms_scanner.Batch.File.Pages.{end, page}
use pms_scanner.Batch.File.Outcome.{Finished, process_file_outcome}
use pms_scanner.Batch.World.{Outside}
use pms_scanner.Batch.File.Unreadable.{Returned, process_file_unreadable}
use pms_scanner.Tests.{
  outside, mac, scan, scan_node, claimed, claimed_tree, idle, toy_backend, staging_state,
  toy_imaging,
}

abbrev pub first_page : PageImage Text
first_page = record {
  page_num = 1;
  image = codes "a large first page";
  orientation_uncertain = true;
  rotation_applied = pos 0;
}

abbrev pub second_page : PageImage Text
second_page = record {
  page_num = 2;
  image = codes "second";
  orientation_uncertain = true;
  rotation_applied = pos 0;
}

pub pages_of_scan :
    process_pdf toy_imaging scan scan_node.bytes ≡ ok (first_page ∷ second_page ∷ [])
unfolding process_pdf text_eq nat_eq lower suffix
pages_of_scan = refl

abbrev net_1 : Net
net_1 = (upload_page_with_downsample outside mac scan 1 first_page.image claimed.net).1

abbrev net_2 : Net
net_2 = (upload_page_with_downsample outside mac scan 2 second_page.image net_1).1

-- The large page is accepted at 150 dots per inch, the other as it is.
upload_1 :
    upload_page_with_downsample outside mac scan 1 first_page.image claimed.net
    ≡ (ok (accepted, some 150), net_1)
unfolding upload_page_with_downsample upload ladder downsample_image upload_page rate_limit_acquire
    try_acquire ◌>>=◌ post classify back_off page_request nat_eq toy_backend
upload_1 = refl

upload_2 :
    upload_page_with_downsample outside mac scan 2 second_page.image net_1
    ≡ (ok (accepted, none), net_2)
unfolding upload_page_with_downsample upload ladder downsample_image upload_page rate_limit_acquire
    try_acquire ◌>>=◌ post classify back_off page_request nat_eq toy_backend
upload_2 = refl

scan_found : find (at (in_self outside mac) scan) claimed_tree ≡ some scan_node
unfolding path_eq Dict.lookup
scan_found = refl

can_finish :
    CanMove outside.denied
      (at (in_self outside mac) scan)
      (at processed scan)
      scan_node
      claimed_tree
unfolding path_eq folder_eq Dict.lookup
can_finish = record {
  allowed = refl;
  folder = refl;
  here = refl;
  node_file = refl;
  no_folder = λ old h. cc;
}

known_env : env_state (codes "staging") claimed.run ≡ some staging_state
unfolding text_eq nat_eq Dict.lookup
known_env = refl

process_file_outcome_example :
    Finished outside mac scan
      (accepted ∷ accepted ∷ [])
      net_2
      scan_node
      staging_state
      claimed
      (process_file outside mac scan claimed)
process_file_outcome_example =
    process_file_outcome outside mac scan claimed scan_node staging_state scan_found pages_of_scan
      (page first_page accepted (some 150) upload_1
        (page second_page accepted none upload_2 (end net_2)))
      can_finish known_env

process_file_keeps_file_example :
    let t' = (process_file outside mac scan claimed).1.tree in
    (folder : Folder) × (find (at folder scan) t' ≡ some scan_node)
    × ((folder ≡ in_self outside mac)
        ⊎ (IsDestination folder × (find (at (in_self outside mac) scan) t' ≡ none)))
process_file_keeps_file_example =
    process_file_keeps_file outside mac scan claimed_tree claimed scan_node refl scan_found

page_descends_example :
    Descent outside mac scan 1
      (codes "a large first page")
      (none ∷ some 150 ∷ some 75 ∷ [])
      idle
      (upload_page_with_downsample outside mac scan 1 (codes "a large first page") idle)
page_descends_example = page_descends outside mac scan 1 (codes "a large first page") idle

encodable : Encodable outside mac scan 1 (codes "a large first page")
encodable none = (codes "a large first page", refl)
encodable (some dpi) = (_, refl)

page_requests_bound_example :
    length
      (upload_page_with_downsample outside mac scan 1 (codes "a large first page") idle).1.posts
    ≤ 9
page_requests_bound_example =
    page_requests_bound outside mac scan 1 (codes "a large first page") idle encodable

-- An outside whose PDF library refuses every file.
abbrev broken : Outside
broken = record outside {
  imaging = record toy_imaging { open_pdf = λ bytes. raised (other_error (codes "no PDF")) };
}

unread : process_pdf broken.imaging scan scan_node.bytes ≡ raised (other_error (codes "no PDF"))
unfolding process_pdf text_eq nat_eq lower suffix
unread = refl

can_return :
    CanMove broken.denied (at (in_self broken mac) scan) (at watch scan) scan_node claimed_tree
unfolding path_eq folder_eq Dict.lookup
can_return = record {
  allowed = refl;
  folder = refl;
  here = refl;
  node_file = refl;
  no_folder = λ old h. cc;
}

process_file_unreadable_example :
    Returned broken mac scan scan_node staging_state claimed (process_file broken mac scan claimed)
process_file_unreadable_example =
    process_file_unreadable broken mac scan claimed scan_node staging_state
      (other_error (codes "no PDF")) scan_found unread can_return known_env

downsample_image-IsScaled_example :
    (w h : ℕ) × (downsample_image toy_imaging first_page.image 150
      ≡ toy_imaging.resize first_page.image w h)
    × IsScaled 18 150 w
    × IsScaled 1 150 h
downsample_image-IsScaled_example =
    downsample_image-IsScaled toy_imaging first_page.image 150 (omega arith)
