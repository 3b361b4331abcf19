-- ===== src/Tests/Profile.antt =====
-- A merge of small bookmark trees, and the merge theorems at concrete inputs.
use helium_sync.Prelude.{◌≡◌, refl, String, none, some, List, [], ◌∷◌, ok, arith, inl, inr}
use helium_sync.Profile.Node.{
  BookmarkNode, folder, url, of_list, BookmarkSnapshotV1, node_eq, height,
}
use helium_sync.Profile.Stats.{bookmark_stats, count_roots, count as count_node}
use helium_sync.Profile.Merge.{
  merge_value, find_node, contains, unseen, merge_ids, merge_children, base_folder, base_url,
  merge_present_node, merge_changed, merge_optional_node, validate_merge_pair, find_root,
  merge_keys, merge_roots, merge_bookmarks, BookmarkMergeResult,
}
use helium_sync.Profile.Merge.ThreeWay.{IsThreeWay}
use helium_sync.Profile.Merge.Roots.{
  merge_bookmarks-IsThreeWay, merge_bookmarks-conflicts, find_root-merge_roots_fuel,
}
use helium_sync.Profile.Merge.Children.{merge_children-IsThreeWay}

abbrev page : String → String → BookmarkNode
page id target = url id "page" target none

abbrev bar : List BookmarkNode → BookmarkNode
bar xs = folder "1" "Bar" none none (of_list xs)

abbrev snapshot : List BookmarkNode → BookmarkSnapshotV1
snapshot xs = record {
  format = "helium-sync-bookmarks";
  source_browser = "helium";
  profile_directory = "Default";
  chromium_version = 1;
  roots = record { key = "bookmark_bar"; node = bar xs } ∷ [];
}

abbrev base : BookmarkSnapshotV1
base = snapshot (page "5" "a" ∷ page "6" "b" ∷ [])

-- `6` is removed and `7` is new
abbrev local : BookmarkSnapshotV1
local = snapshot (page "5" "a" ∷ page "7" "c" ∷ [])

-- `5` has another target
abbrev remote : BookmarkSnapshotV1
remote = snapshot (page "5" "z" ∷ page "6" "b" ∷ [])

abbrev merged : BookmarkMergeResult
merged = record { snapshot = snapshot (page "5" "z" ∷ page "7" "c" ∷ []); conflicts = 0 }

merged_run : merge_bookmarks (some base) local remote ≡ ok merged
unfolding merge_value find_node contains unseen merge_ids merge_children base_folder base_url
    merge_present_node merge_changed merge_optional_node validate_merge_pair find_root merge_keys
    merge_roots merge_bookmarks node_eq height
merged_run = refl

merge_bookmarks-IsThreeWay_example :
    IsThreeWay
      (find_root "bookmark_bar" base.roots)
      (find_root "bookmark_bar" local.roots)
      (find_root "bookmark_bar" remote.roots)
      (find_root "bookmark_bar" merged.snapshot.roots)
merge_bookmarks-IsThreeWay_example =
    merge_bookmarks-IsThreeWay (some base) local remote merged merged_run "bookmark_bar"

-- what comes of it when only the remote side has changed
abbrev taken : BookmarkMergeResult
taken = record { snapshot = remote; conflicts = 0 }

taken_over : merge_bookmarks (some base) base remote ≡ ok taken
unfolding merge_value find_node contains unseen merge_ids merge_children base_folder base_url
    merge_present_node merge_changed merge_optional_node validate_merge_pair find_root merge_keys
    merge_roots merge_bookmarks node_eq height
taken_over = refl

merge_bookmarks-conflicts_example : taken.conflicts ≡ 0
merge_bookmarks-conflicts_example =
    merge_bookmarks-conflicts (some base) base remote taken taken_over (λ key. inr (inl refl))

find_root-merge_roots_fuel_example :
    find_root "bookmark_bar" (merge_roots base.roots local.roots remote.roots).0
    ≡ (merge_optional_node 9
        (find_root "bookmark_bar" base.roots)
        (find_root "bookmark_bar" local.roots)
        (find_root "bookmark_bar" remote.roots)).0
unfolding height
find_root-merge_roots_fuel_example =
    find_root-merge_roots_fuel base.roots local.roots remote.roots 9 "bookmark_bar" (omega arith)

merge_children-IsThreeWay_example :
    IsThreeWay
      (find_node "6" (page "5" "a" ∷ page "6" "b" ∷ []))
      (find_node "6" (page "5" "a" ∷ []))
      (find_node "6" (page "5" "z" ∷ page "6" "b" ∷ []))
      (find_node "6"
        (merge_children
          (merge_optional_node 3)
          (some (page "5" "a" ∷ page "6" "b" ∷ []))
          (page "5" "a" ∷ [])
          (page "5" "z" ∷ page "6" "b" ∷ [])).0)
merge_children-IsThreeWay_example =
    merge_children-IsThreeWay 2 (some (page "5" "a" ∷ page "6" "b" ∷ [])) (page "5" "a" ∷ [])
      (page "5" "z" ∷ page "6" "b" ∷ []) "6"

-- two pages below the bar
counted : bookmark_stats (λ x. none) base ≡ record { bookmarks = 2; folders = 1; bytes = 0 }
unfolding bookmark_stats count_roots count_node
counted = refl
