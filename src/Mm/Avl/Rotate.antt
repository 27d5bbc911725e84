-- ===== src/Mm/Avl/Rotate.antt =====
-- One round of `avl_rebalance` restores a node whose subtree grew or shrank by one.
use prettyos.Common.{
  ℕ, suc, ◌+◌, ◌≤◌, ◌≡◌, refl, sym, ◌∙◌, Bool, true, false, arith, max, ◌⊎◌, inl, inr, leb, ltb,
  ◌==◌, if◌then◌else◌, leb→le, leb_false→lt, ltb→lt, ltb_false→le, ==_iff, Bool-cases,
}
use prettyos.Mm.Avl.{
  Vma, Tree, empty, node, heightof, rotate_right, rotate_left, rebalance_node, height_over,
}

-- Every stored height is right, and the heights of two siblings differ by at most one.
abbrev pub IsAvl : Tree → Type 0
IsAvl empty = Unit
IsAvl (node l v h r) =
    IsAvl l
    × IsAvl r
    × (h ≡ suc (max (heightof l) (heightof r)))
    × (heightof l ≤ heightof r + 1)
    × (heightof r ≤ heightof l + 1)

-- The heights are at most one apart.
abbrev pub Near : ℕ → ℕ → Type 0
Near a b = (a ≤ b + 1) × (b ≤ a + 1)

rotate_right-IsAvl :
    (l : Tree) (v : Vma) (r : Tree)
    → IsAvl l
    → IsAvl r
    → heightof l ≡ heightof r + 2
    → IsAvl (rotate_right l v r)
      × (heightof l ≤ heightof (rotate_right l v r))
      × (heightof (rotate_right l v r) ≤ heightof l + 1)
unfolding rotate_right
rotate_right-IsAvl empty v r al ar e = absurd (omega arith)
rotate_right-IsAvl (node ll lv lh empty) v r al ar e = ground arith
rotate_right-IsAvl (node ll lv lh (node lrl lrv lrh lrr)) v r al ar e =
    elim (Bool-cases (leb lrh (heightof ll))) [
      | inl single ↦ rw single (
          let p = leb→le _ _ single in
          (
            (
              al.0,
              (al.1, ar, omega arith, omega arith, omega arith),
              omega arith,
              omega arith,
              omega arith,
            ),
            omega arith,
            omega arith,
          ))
      | inr double ↦ rw double (
          let p = leb_false→lt _ _ double in
          (
            (
              (al.0, al.1.0, omega arith, omega arith, omega arith),
              (al.1.1, ar, omega arith, omega arith, omega arith),
              omega arith,
              omega arith,
              omega arith,
            ),
            omega arith,
            omega arith,
          ))
    ]

rotate_left-IsAvl :
    (l : Tree) (v : Vma) (r : Tree)
    → IsAvl l
    → IsAvl r
    → heightof r ≡ heightof l + 2
    → IsAvl (rotate_left l v r)
      × (heightof r ≤ heightof (rotate_left l v r))
      × (heightof (rotate_left l v r) ≤ heightof r + 1)
unfolding rotate_left
rotate_left-IsAvl l v empty al ar e = absurd (omega arith)
rotate_left-IsAvl l v (node empty rv rh rr) al ar e = ground arith
rotate_left-IsAvl l v (node (node rll rlv rlh rlr) rv rh rr) al ar e =
    elim (Bool-cases (leb rlh (heightof rr))) [
      | inl single ↦ rw single (
          let p = leb→le _ _ single in
          (
            (
              (al, ar.0, omega arith, omega arith, omega arith),
              ar.1,
              omega arith,
              omega arith,
              omega arith,
            ),
            omega arith,
            omega arith,
          ))
      | inr double ↦ rw double (
          let p = leb_false→lt _ _ double in
          (
            (
              (al, ar.0.0, omega arith, omega arith, omega arith),
              (ar.0.1, ar.1, omega arith, omega arith, omega arith),
              omega arith,
              omega arith,
              omega arith,
            ),
            omega arith,
            omega arith,
          ))
    ]

-- `out` replaces a node of height `h`; where the loop stops, the height has not changed.
abbrev pub Restores : ℕ → Tree × Bool → Type 0
Restores h (t, go) = IsAvl t × Near (heightof t) h × (go ≡ false → heightof t ≡ h)

height_over-max : (l r : Tree) → height_over l r ≡ suc (max (heightof l) (heightof r))
height_over-max l r = elim (Bool-cases (ltb (heightof l) (heightof r))) [
  | inl h ↦ rw h (omega (arith, ltb→lt (heightof l) (heightof r) h))
  | inr h ↦ rw h (omega (arith, ltb_false→le (heightof l) (heightof r) h))
]

-- With the subtrees restored and the stored height off by at most one, a round restores the node.
pub rebalance_node-Restores :
    (a b : ℕ) (l : Tree) (v : Vma) (h : ℕ) (r : Tree)
    → IsAvl l
    → IsAvl r
    → Near a b
    → h ≡ suc (max a b)
    → ((a ≡ heightof l) × Near b (heightof r)) ⊎ (Near a (heightof l) × (b ≡ heightof r))
    → Restores h (rebalance_node (node l v h r))
unfolding rebalance_node
rebalance_node-Restores a b l v h r al ar n e d =
    elim (Bool-cases (ltb (heightof r + 1) (heightof l))) [
      | inl left ↦ rw left (
          let p = ltb→lt _ _ left in
          let q = rotate_right-IsAvl l v r al ar (omega arith) in
          (q.0, (omega arith, omega arith), λ f. cc))
      | inr nleft ↦ rw nleft (elim (Bool-cases (ltb (heightof l + 1) (heightof r))) [
        | inl right ↦ rw right (
            let p = ltb→lt _ _ right in
            let q = rotate_left-IsAvl l v r al ar (omega arith) in
            (q.0, (omega arith, omega arith), λ f. cc))
        | inr nright ↦ rw nright (level a b l v h r al ar n e d nleft nright)
      ])
    ]
  where
    level :
        (a b : ℕ) (l : Tree) (v : Vma) (h : ℕ) (r : Tree)
        → IsAvl l
        → IsAvl r
        → Near a b
        → h ≡ suc (max a b)
        → ((a ≡ heightof l) × Near b (heightof r)) ⊎ (Near a (heightof l) × (b ≡ heightof r))
        → ltb (heightof r + 1) (heightof l) ≡ false
        → ltb (heightof l + 1) (heightof r) ≡ false
        → Restores h (
            if height_over l r == h
            then (node l v h r, false)
            else (node l v (height_over l r) r, true))
    level a b l v h r al ar n e d nleft nright =
        let p = ltb_false→le _ _ nleft in
        let q = ltb_false→le _ _ nright in
        let m = height_over-max l r in
        elim (Bool-cases (height_over l r == h)) [
          | inl same ↦ rw same (
              let w = (==_iff _ _).0 same in
              ((al, ar, sym w ∙ m, p, q), (omega arith, omega arith), λ _. refl))
          | inr change ↦
              rw change ((al, ar, m, p, q), (rw m (omega arith), rw m (omega arith)), λ f. cc)
        ]
