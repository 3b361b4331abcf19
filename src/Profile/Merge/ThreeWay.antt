-- ===== src/Profile/Merge/ThreeWay.antt =====
-- What the merge of one node promises (`merge_optional_node`), whatever the nodes are.
use helium_sync.Prelude.{ℕ, suc, ◌≡◌, Option, none, ◌⊎◌, arith}
use helium_sync.Profile.Node.{BookmarkNode}
use helium_sync.Profile.Node.Equality.{option_node_eq_iff}
use helium_sync.Profile.Merge.{merge_changed, merge_optional_node}

-- `same`: what both sides have stays. `theirs`, `ours`: a change on one side only is taken over.
-- `gone`: a node is dropped only if a side has deleted it and the other has not changed it.
pub record IsThreeWay (base local remote result : Option BookmarkNode) : Type 0 where
  pub same : local ≡ remote → result ≡ local
  pub theirs : local ≡ base → result ≡ remote
  pub ours : remote ≡ base → result ≡ local
  pub gone :
      result ≡ none
      → ((local ≡ none) × ((remote ≡ none) ⊎ (remote ≡ base))) ⊎ ((remote ≡ none) × (local ≡ base))

module _ (fuel : ℕ) (base local remote : Option BookmarkNode) where
  pub merge_optional_node-IsThreeWay :
      IsThreeWay base local remote (merge_optional_node (suc fuel) base local remote).0
  unfolding merge_optional_node merge_changed
  merge_optional_node-IsThreeWay = record {
    same = λ h. ground (arith, option_node_eq_iff local remote);
    theirs = λ h. ground (arith, option_node_eq_iff local remote, option_node_eq_iff local base);
    ours = λ h. ground (
      arith,
      option_node_eq_iff local remote,
      option_node_eq_iff local base,
      option_node_eq_iff remote base,
    );
    gone = λ h. ground (
      arith,
      option_node_eq_iff local remote,
      option_node_eq_iff local base,
      option_node_eq_iff remote base,
    );
  }

  -- Where at most one side has changed there is no conflict.
  pub merge_optional_node-conflicts :
      (local ≡ remote) ⊎ (local ≡ base) ⊎ (remote ≡ base)
      → (merge_optional_node (suc fuel) base local remote).1 ≡ 0
  unfolding merge_optional_node merge_changed
  merge_optional_node-conflicts h = ground (
    arith,
    option_node_eq_iff local remote,
    option_node_eq_iff local base,
    option_node_eq_iff remote base,
  )
