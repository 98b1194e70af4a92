-- ===== src/Listing/Tests.antt =====
-- A listing of three objects in pages of two.
use ironbucket.Base.{◌≡◌, refl, none, All, List, [], ◌∷◌, length, suc, arith}
use ironbucket.Base.Text.{codes}
use ironbucket.Listing.{Object, text_gt}
use ironbucket.Disk.{Entries, file, dir, nil, entry}
use ironbucket.Listing.{scan_directory}
use ironbucket.Listing.Scan.{Matches, scan_directory-Matches, scan_directory-below_prefix}
use ironbucket.Listing.Pages.{IsSorted, read_pages, read_pages_complete}

abbrev three_objects : List Object
three_objects =
    record { key = codes "a"; size = 1 }
    ∷ record { key = codes "b/c"; size = 2 }
    ∷ record { key = codes "b/d"; size = 3 }
    ∷ []

three_objects-IsSorted : IsSorted three_objects
unfolding text_gt
three_objects-IsSorted = (λ p. cc, (refl, (refl, tt)), (λ p. cc, (refl, tt), (λ p. cc, tt, tt)))

read_pages_complete_example :
    read_pages (suc (length three_objects)) three_objects none 2 ≡ three_objects
read_pages_complete_example =
    read_pages_complete three_objects 2 three_objects-IsSorted (omega arith) (omega arith)
      (omega arith)

abbrev photos : Entries
photos = entry (codes "cat.png") (file (codes "meow")) nil

-- The prefix "photos/" hides the directory "photos", which the prefix "photos" shows.
found_without_slash :
    length (scan_directory (codes "photos") [] (entry (codes "photos") (dir photos) nil)) ≡ 1
unfolding scan_directory
found_without_slash = refl

scan_directory-Matches_example :
    All
      (Matches (codes "photos"))
      (scan_directory (codes "photos") [] (entry (codes "photos") (dir photos) nil))
scan_directory-Matches_example =
    scan_directory-Matches (codes "photos") (entry (codes "photos") (dir photos) nil)

scan_directory-below_prefix_example :
    scan_directory (codes "photos/") [] (entry (codes "photos") (dir photos) nil)
    ≡ scan_directory (codes "photos/") [] nil
scan_directory-below_prefix_example =
    scan_directory-below_prefix (codes "photos/") (codes "photos") photos nil (omega arith)
