-- ===== src/Profile/Node/Equality.antt =====
-- The derived equality of bookmark nodes decides equality.
use helium_sync.Prelude.{
  ◌≡◌, refl, ap, ◌↔◌, true, String, Option, none, some, arith, str_eq, eq_iff, eq_refl,
}
use helium_sync.Profile.Node.{
  BookmarkNode, folder, url, Nodes, nil, cons, option_eq, node_eq, nodes_eq,
}

text_option-eq : (a b : Option String) → option_eq str_eq a b ≡ true → a ≡ b
text_option-eq none none h = refl
text_option-eq none (some b) h = ground arith
text_option-eq (some a) none h = ground arith
text_option-eq (some a) (some b) h = ap some ((eq_iff a b).0 h)

text_option_refl : (a : Option String) → option_eq str_eq a a ≡ true
text_option_refl none = refl
text_option_refl (some a) = eq_refl a

mutual
  unfolding node_eq

  pub node_eq-eq : (x y : BookmarkNode) → node_eq x y ≡ true → x ≡ y
  node_eq-eq (folder i n a m xs) (folder i' n' a' m' xs') h = ground (
    arith,
    eq_iff i i',
    eq_iff n n',
    text_option-eq a a',
    text_option-eq m m',
    nodes_eq-eq xs xs',
  )
  node_eq-eq (folder i n a m xs) (url i' n' u' a') h = ground arith
  node_eq-eq (url i n u a) (url i' n' u' a') h =
      ground (arith, eq_iff i i', eq_iff n n', eq_iff u u', text_option-eq a a')
  node_eq-eq (url i n u a) (folder i' n' a' m' xs') h = ground arith

  nodes_eq-eq : (xs ys : Nodes) → nodes_eq xs ys ≡ true → xs ≡ ys
  nodes_eq-eq nil nil h = refl
  nodes_eq-eq nil (cons y ys) h = ground arith
  nodes_eq-eq (cons x xs) nil h = ground arith
  nodes_eq-eq (cons x xs) (cons y ys) h = ground (arith, node_eq-eq x y, nodes_eq-eq xs ys)

mutual
  unfolding node_eq

  pub node_eq_refl : (x : BookmarkNode) → node_eq x x ≡ true
  node_eq_refl (folder i n a m xs) =
      ground (arith, eq_refl i, eq_refl n, text_option_refl a, text_option_refl m, nodes_eq_refl xs)
  node_eq_refl (url i n u a) = ground (arith, eq_refl i, eq_refl n, eq_refl u, text_option_refl a)

  nodes_eq_refl : (xs : Nodes) → nodes_eq xs xs ≡ true
  nodes_eq_refl nil = refl
  nodes_eq_refl (cons x xs) = ground (arith, node_eq_refl x, nodes_eq_refl xs)

-- The comparison of two optional nodes, as the merge makes it, decides their equality.
pub option_node_eq_iff : (a b : Option BookmarkNode) → (option_eq node_eq a b ≡ true) ↔ (a ≡ b)
option_node_eq_iff none none = (λ h. refl, λ h. refl)
option_node_eq_iff none (some y) = (λ h. ground arith, λ h. ground arith)
option_node_eq_iff (some x) none = (λ h. ground arith, λ h. ground arith)
option_node_eq_iff (some x) (some y) =
    (λ h. ap some (node_eq-eq x y h), λ h. ground (arith, node_eq_refl x))
