-- ===== src/Kernel/Sched/Timeline.antt =====
-- The timeline of kernel/sched_fair.c as the sequence of its tasks.
use prettyos.Common.{
  ℕ, ◌^◌, ◌≤◌, ◌<◌, ◌≡◌, ◌⊎◌, refl, sym, ap, ◌∙◌, Bool, true, false, Option, none, some, List, [],
  ◌∷◌, ◌++◌, All, All-left, All-right, ltb, ◌==◌, if◌then◌else◌, arith, Bool-cases, inl, inr,
  ltb→lt, ltb_false→le, ==_iff,
}
use prettyos.Kernel.Sched.{
  Tree, leaf, node, to_list, Rbtree, IsRbtree, is_before, link_at, balanced, ts_insert,
}

-- Each key is below the later ones.
abbrev pub Ascending : (ℕ → ℕ) → List ℕ → Type 0
Ascending v [] = Unit
Ascending v (x ∷ xs) = All (λ y. v x < v y) xs × Ascending v xs

abbrev pub Small : (ℕ → ℕ) → List ℕ → Type 0
Small v xs = All (λ x. v x < 2 ^ 31) xs

-- The task before the first one of a greater key; nothing changes where its key is there already.
unfoldable pub place : (ℕ → ℕ) → ℕ → List ℕ → List ℕ
place v p [] = p ∷ []
place v p (x ∷ xs) =
    if ltb (v p) (v x) then p ∷ x ∷ xs else if v p == v x then x ∷ xs else x ∷ place v p xs

before_lem : (a b : ℕ) → a < 2 ^ 31 → b < 2 ^ 31 → is_before a b ≡ ltb a b
unfolding is_before
before_lem a b h k = ground arith

pub All-place :
    (v : ℕ → ℕ) (P : ℕ → Type 0) (p : ℕ) (xs : List ℕ) → P p → All P xs → All P (place v p xs)
unfolding place
All-place v P p [] h a = (h, tt)
All-place v P p (x ∷ xs) h a = elim (Bool-cases (ltb (v p) (v x))) [
  | inl c ↦ rw c (h, (a.0, a.1))
  | inr c ↦ elim (Bool-cases (v p == v x)) [
    | inl d ↦ rw c (rw d (a.0, a.1))
    | inr d ↦ rw c (rw d (a.0, All-place v P p xs h a.1))
  ]
]

All_lt : (v : ℕ → ℕ) (a b : ℕ) (xs : List ℕ) → a < b → All (λ y. b < v y) xs → All (λ y. a < v y) xs
All_lt v a b [] h k = tt
All_lt v a b (x ∷ xs) h k = (omega arith, All_lt v a b xs h k.1)

pub place-Ascending :
    (v : ℕ → ℕ) (p : ℕ) (xs : List ℕ) → Ascending v xs → Ascending v (place v p xs)
unfolding place
place-Ascending v p [] a = (tt, tt)
place-Ascending v p (x ∷ xs) a = elim (Bool-cases (ltb (v p) (v x))) [
  | inl c ↦ let k = ltb→lt (v p) (v x) c in rw c ((k, All_lt v (v p) (v x) xs k a.0), (a.0, a.1))
  | inr c ↦ elim (Bool-cases (v p == v x)) [
    | inl d ↦ rw c (rw d (a.0, a.1))
    | inr d ↦
        let h : v x < v p = ground arith in
        rw c (rw d (All-place v (λ y. v x < v y) p xs h a.0, place-Ascending v p xs a.1))
  ]
]

-- The sequence ys has p among the tasks zs, after those of a smaller key and before those of a greater one;
-- or a task of zs has the key of p, and ys is zs, without p.
abbrev pub Placed : (ℕ → ℕ) → ℕ → List ℕ → List ℕ → Type 0
Placed v p zs ys =
    ((front : List ℕ) × (back : List ℕ) × (zs ≡ front ++ back)
      × (ys ≡ front ++ (p ∷ back))
      × All (λ y. v y < v p) front
      × All (λ y. v p < v y) back)
    ⊎ ((front : List ℕ) × (k : ℕ) × (back : List ℕ) × (zs ≡ front ++ (k ∷ back))
        × (v k ≡ v p)
        × (ys ≡ zs))

Placed-cons :
    (v : ℕ → ℕ) (p x : ℕ) (zs ys : List ℕ)
    → v x < v p
    → Placed v p zs ys
    → Placed v p (x ∷ zs) (x ∷ ys)
Placed-cons v p x zs ys h (inl (front, back, e, f, a, b)) =
    inl (x ∷ front, back, ap (◌∷◌ x) e, ap (◌∷◌ x) f, (h, a), b)
Placed-cons v p x zs ys h (inr (front, k, back, e, f, g)) =
    inr (x ∷ front, k, back, ap (◌∷◌ x) e, f, ap (◌∷◌ x) g)

pub place-Placed : (v : ℕ → ℕ) (p : ℕ) (zs : List ℕ) → Ascending v zs → Placed v p zs (place v p zs)
unfolding place
place-Placed v p [] a = inl ([], [], refl, refl, tt, tt)
place-Placed v p (x ∷ xs) a = elim (Bool-cases (ltb (v p) (v x))) [
  | inl c ↦
      let k = ltb→lt (v p) (v x) c in
      inl ([], x ∷ xs, refl, rw c refl, tt, (k, All_lt v (v p) (v x) xs k a.0))
  | inr c ↦ elim (Bool-cases (v p == v x)) [
    | inl d ↦ inr ([], x, xs, refl, sym ((==_iff (v p) (v x)).0 d), rw c (rw d refl))
    | inr d ↦
        let h : v x < v p = ground arith in
        rw c (rw d (Placed-cons v p x xs (place v p xs) h (place-Placed v p xs a.1)))
  ]
]

place_in_left :
    (v : ℕ → ℕ) (p k : ℕ) (xs ys : List ℕ)
    → v p < v k
    → place v p (xs ++ (k ∷ ys)) ≡ place v p xs ++ (k ∷ ys)
unfolding place
place_in_left v p k [] ys h = let c : ltb (v p) (v k) ≡ true = ground arith in rw c refl
place_in_left v p k (x ∷ xs) ys h = elim (Bool-cases (ltb (v p) (v x))) [
  | inl c ↦ rw c refl
  | inr c ↦ elim (Bool-cases (v p == v x)) [
    | inl d ↦ rw c (rw d refl)
    | inr d ↦ rw c (rw d (ap (◌∷◌ x) (place_in_left v p k xs ys h)))
  ]
]

place_in_right :
    (v : ℕ → ℕ) (p k : ℕ) (xs ys : List ℕ)
    → All (λ x. v x < v k) xs
    → v k ≤ v p
    → place v p (xs ++ (k ∷ ys)) ≡ xs ++ place v p (k ∷ ys)
unfolding place
place_in_right v p k [] ys a h = refl
place_in_right v p k (x ∷ xs) ys a h =
    let m = a.0 in
    let c : ltb (v p) (v x) ≡ false = ground arith in
    let d : (v p == v x) ≡ false = ground arith in
    rw c (rw d (ap (◌∷◌ x) (place_in_right v p k xs ys a.1 h)))

pub place_first : (v : ℕ → ℕ) (p k : ℕ) (ys : List ℕ) → v p ≡ v k → place v p (k ∷ ys) ≡ k ∷ ys
unfolding place
place_first v p k ys e =
    let c : ltb (v p) (v k) ≡ false = ground arith in
    let d : (v p == v k) ≡ true = ground arith in rw c (rw d refl)

place_after :
    (v : ℕ → ℕ) (p k : ℕ) (ys : List ℕ) → v k < v p → place v p (k ∷ ys) ≡ k ∷ place v p ys
unfolding place
place_after v p k ys h =
    let c : ltb (v p) (v k) ≡ false = ground arith in
    let d : (v p == v k) ≡ false = ground arith in rw c (rw d refl)

Ascending-left : (v : ℕ → ℕ) (xs ys : List ℕ) → Ascending v (xs ++ ys) → Ascending v xs
Ascending-left v [] ys a = tt
Ascending-left v (x ∷ xs) ys a = (All-left (λ y. v x < v y) xs ys a.0, Ascending-left v xs ys a.1)

Ascending-right : (v : ℕ → ℕ) (xs ys : List ℕ) → Ascending v (xs ++ ys) → Ascending v ys
Ascending-right v [] ys a = a
Ascending-right v (x ∷ xs) ys a = Ascending-right v xs ys a.1

Ascending-before :
    (v : ℕ → ℕ) (xs : List ℕ) (k : ℕ) (ys : List ℕ)
    → Ascending v (xs ++ (k ∷ ys))
    → All (λ x. v x < v k) xs
Ascending-before v [] k ys a = tt
Ascending-before v (x ∷ xs) k ys a =
    ((All-right (λ y. v x < v y) xs (k ∷ ys) a.0).0, Ascending-before v xs k ys a.1)

-- The sequence after the walk: of the new tree, or of the old one
abbrev kept : Tree → Option Tree → List ℕ
kept t none = to_list t
kept t (some t') = to_list t'

kept_left :
    (b : Bool) (l : Tree) (k : ℕ) (r : Tree) (o : Option Tree)
    → kept (node b l k r) (elim o [ none ↦ none | some l' ↦ some (node b l' k r) ])
      ≡ kept l o ++ (k ∷ to_list r)
unfolding to_list
kept_left b l k r none = refl
kept_left b l k r (some l') = refl

kept_right :
    (b : Bool) (l : Tree) (k : ℕ) (r : Tree) (o : Option Tree)
    → kept (node b l k r) (elim o [ none ↦ none | some r' ↦ some (node b l k r') ])
      ≡ to_list l ++ (k ∷ kept r o)
unfolding to_list
kept_right b l k r none = refl
kept_right b l k r (some r') = refl

place_nil : (v : ℕ → ℕ) (p : ℕ) → place v p [] ≡ p ∷ []
unfolding place
place_nil v p = refl

kept-link_at :
    (v : ℕ → ℕ) (p : ℕ) (t : Tree)
    → v p < 2 ^ 31
    → Small v (to_list t)
    → Ascending v (to_list t)
    → kept t (link_at v p t) ≡ place v p (to_list t)
unfolding link_at to_list
kept-link_at v p leaf h m a = sym (place_nil v p)
kept-link_at v p (node b l k r) h m a =
    let L = to_list l in
    let R = to_list r in
    let n : Small v (k ∷ R) = All-right (λ x. v x < 2 ^ 31) L (k ∷ R) m in
    let s : v k < 2 ^ 31 = n.0 in
    let bl = Ascending-before v L k R a in
    let e = before_lem (v p) (v k) h s in
    elim (Bool-cases (ltb (v p) (v k))) [
      | inl c ↦
          let q = ltb→lt (v p) (v k) c in
          rw (e ∙ c, kept)
            (kept_left b l k r (link_at v p l)
              ∙ ap (λ z. z ++ (k ∷ R))
                  (kept-link_at v p l h (All-left (λ x. v x < 2 ^ 31) L (k ∷ R) m)
                    (Ascending-left v L (k ∷ R) a))
              ∙ sym (place_in_left v p k L R q))
      | inr c ↦
          let q = ltb_false→le (v p) (v k) c in
          elim (Bool-cases (v p == v k)) [
            | inl d ↦
                rw (e ∙ c, kept)
                  (rw d (
                    sym (
                      place_in_right v p k L R bl q
                      ∙ ap (λ z. L ++ z) (place_first v p k R ((==_iff (v p) (v k)).0 d)))))
            | inr d ↦
                let w : v k < v p = ground arith in
                rw (e ∙ c, kept)
                  (rw d (
                    kept_right b l k r (link_at v p r)
                    ∙ ap (λ z. L ++ (k ∷ z))
                        (kept-link_at v p r h n.1 (Ascending-right v L (k ∷ R) a).1)
                    ∙ sym
                        (place_in_right v p k L R bl q ∙ ap (λ z. L ++ z) (place_after v p k R w))))
          ]
    ]

insert_kept :
    (rb : Rbtree)
    → IsRbtree rb
    → (p : ℕ) (t : Tree) (o : Option Tree) → to_list (balanced rb p t o).1 ≡ kept t o
unfolding balanced
insert_kept rb h p t none = refl
insert_kept rb h p t (some t') = h.same p t'

-- Where the keys of the timeline ascend, and these and the task's are below 2 ^ 31, `ts_insert` puts the task
-- before the first one of a greater key, and changes nothing where its key is there; the keys ascend still.
pub ts_insert-place :
    (rb : Rbtree)
    → IsRbtree rb
    → (v : ℕ → ℕ) (p : ℕ) (t : Tree) → v p < 2 ^ 31
    → Small v (to_list t)
    → Ascending v (to_list t)
    → (to_list (ts_insert rb v p t).1 ≡ place v p (to_list t))
      × Ascending v (to_list (ts_insert rb v p t).1)
unfolding ts_insert
ts_insert-place rb h v p t k m a =
    let e : to_list (ts_insert rb v p t).1 ≡ place v p (to_list t) =
      insert_kept rb h p t (link_at v p t) ∙ kept-link_at v p t k m a in
    (e, rw e (place-Ascending v p (to_list t) a))
