-- ===== src/Libc/Linked/Splice.antt =====
-- A node put between two others, or taken from between them.
use prettyos.Common.{
  ℕ, ◌≡◌, ◌≢◌, refl, sym, ◌∙◌, subst, List, [], ◌∷◌, ◌++◌, All, All-left, All-right, All-append,
  All_at, arith, append-nil, false, ◌==◌,
}
use prettyos.Libc.Linked.{Heap, null, write, list_add, list_add_head, list_del, poison1, poison2}
use prettyos.Libc.Linked.Chain.{
  PathTo, Distinct, IsLinked, PathTo-frame, write_other, write_same, keep_two, deleted,
  list_del_lem,
}

-- The first node of the rest of a path, or its end
abbrev pub first_or : ℕ → List ℕ → ℕ
first_or b [] = b
first_or b (y ∷ ys) = y

pub first_or-All : (P : ℕ → Type 0) (b : ℕ) (ys : List ℕ) → P b → All P ys → P (first_or b ys)
first_or-All P b [] p a = p
first_or-All P b (y ∷ ys) p a = a.0

-- The node before the rest of a path is one of those passed.
before_rest :
    (P : ℕ → Type 0) (h : Heap) (a b : ℕ) (xs ys : List ℕ)
    → PathTo h a (xs ++ ys) b
    → P a
    → All P xs
    → P (h.prev (first_or b ys))
unfolding PathTo
before_rest P h a b [] [] (p, q) e t = subst P (sym q) e
before_rest P h a b [] (y ∷ ys) (p, q, r) e t = subst P (sym q) e
before_rest P h a b (x ∷ xs) ys (p, q, r) e t = before_rest P h x b xs ys r t.0 t.1

link_two :
    (h : Heap) (a b item : ℕ) (ys : List ℕ)
    → PathTo h a ys b
    → a ≢ item
    → b ≢ item
    → All (λ y. y ≢ item) ys
    → All (λ y. y ≢ a) ys
    → All (λ y. y ≢ b) ys
    → Distinct ys
    → PathTo (list_add h item a (first_or b ys)) a (item ∷ ys) b
unfolding PathTo list_add
link_two h a b item [] (p, q) na nb n m k d = (
  write_same (write h.next item b) a item,
  write_same (write h.prev b item) item a,
  (
    write_other (write h.next item b) a item item (λ e. na (sym e)) ∙ write_same h.next item b,
    write_other (write h.prev b item) item a b nb ∙ write_same h.prev b item,
  ),
)
link_two h a b item (y ∷ ys) (p, q, r) na nb n m k d = (
  write_same (write h.next item y) a item,
  write_same (write h.prev y item) item a,
  (
    write_other (write h.next item y) a item item (λ e. na (sym e)) ∙ write_same h.next item y,
    write_other (write h.prev y item) item a y n.0 ∙ write_same h.prev y item,
    PathTo-frame h (list_add h item a y) y b ys (keep_two h.next item y a item (y ∷ ys) n m)
        (keep_two h.prev y item item a (b ∷ ys) ((λ e. k.0 (sym e)), d.0) (nb, n.1)) r,
  ),
)

-- The path with a node between its first part and the rest
pub add_between :
    (h : Heap) (a b item : ℕ) (xs ys : List ℕ)
    → PathTo h a (xs ++ ys) b
    → a ≢ item
    → b ≢ item
    → All (λ y. y ≢ item) (xs ++ ys)
    → All (λ y. y ≢ b) (xs ++ ys)
    → Distinct (a ∷ (xs ++ ys))
    → PathTo (list_add h item (h.prev (first_or b ys)) (first_or b ys)) a (xs ++ (item ∷ ys)) b
unfolding PathTo
add_between h a b item [] ys p na nb n k d =
    let e : h.prev (first_or b ys) ≡ a = before_rest (λ z. z ≡ a) h a b [] ys p refl tt in
    subst (λ z. PathTo (list_add h item z (first_or b ys)) a (item ∷ ys) b) (sym e)
      (link_two h a b item ys p na nb n d.0 k d.1)
add_between h a b item (x ∷ xs) ys (p, q, r) na nb n k d =
    let f = first_or b ys in
    let o : h.prev f ≢ a =
      before_rest (λ z. z ≢ a) h x b xs ys r d.0.0 (All-left (λ z. z ≢ a) xs ys d.0.1) in
    let g : f ≢ x =
      first_or-All (λ z. z ≢ x) b ys (λ e. k.0 (sym e)) (All-right (λ z. z ≢ x) xs ys d.1.0) in
    (
      unfold list_add in
          write_other (write h.next item f) (h.prev f) item a (λ e. o (sym e))
          ∙ write_other h.next item f a na
          ∙ p,
      unfold list_add in
          write_other (write h.prev f item) item (h.prev f) x n.0
          ∙ write_other h.prev f item x (λ e. g (sym e))
          ∙ q,
      add_between h x b item xs ys r n.0 nb n.1 k.1 d.1,
    )

join_two :
    (h : Heap) (a b x n m : ℕ) (ys : List ℕ)
    → PathTo h a (x ∷ ys) b
    → a ≢ x
    → b ≢ x
    → All (λ y. y ≢ x) ys
    → All (λ y. y ≢ a) ys
    → All (λ y. y ≢ b) ys
    → Distinct ys
    → PathTo (deleted h x n m) a ys b
unfolding PathTo
join_two h a b x n m [] (p, q, (r, s)) na nb nx o k d = (
  write_other (write h.next (h.prev x) (h.next x)) x n a na
      ∙ rw q (write_same h.next a (h.next x))
      ∙ r,
  write_other (write h.prev (h.next x) (h.prev x)) x m b nb
      ∙ rw r (write_same h.prev b (h.prev x))
      ∙ q,
)
join_two h a b x n m (y ∷ ys) (p, q, (r, s, t)) na nb nx o k d = (
  write_other (write h.next (h.prev x) (h.next x)) x n a na
      ∙ rw q (write_same h.next a (h.next x))
      ∙ r,
  write_other (write h.prev (h.next x) (h.prev x)) x m y nx.0
      ∙ rw r (write_same h.prev y (h.prev x))
      ∙ q,
  PathTo-frame h (deleted h x n m) y b ys
      (keep_two h.next (h.prev x) (h.next x) x n (y ∷ ys)
        (subst (λ z. All (λ u. u ≢ z) (y ∷ ys)) (sym q) o) nx)
      (keep_two h.prev (h.next x) (h.prev x) x m (b ∷ ys)
        (subst (λ z. All (λ u. u ≢ z) (b ∷ ys)) (sym r) ((λ e. k.0 (sym e)), d.0)) (nb, nx.1))
      t,
)

next_of :
    (h : Heap) (a b x : ℕ) (xs ys : List ℕ)
    → PathTo h a (xs ++ (x ∷ ys)) b
    → h.next x ≡ first_or b ys
unfolding PathTo
next_of h a b x [] [] (p, q, (r, s)) = r
next_of h a b x [] (y ∷ ys) (p, q, (r, s, t)) = r
next_of h a b x (z ∷ zs) ys (p, q, r) = next_of h z b x zs ys r

-- The path without a node between its first part and the rest
pub delete_between :
    (h : Heap) (a b x n m : ℕ) (xs ys : List ℕ)
    → PathTo h a (xs ++ (x ∷ ys)) b
    → b ≢ x
    → All (λ y. y ≢ b) (xs ++ (x ∷ ys))
    → Distinct (a ∷ (xs ++ (x ∷ ys)))
    → PathTo (deleted h x n m) a (xs ++ ys) b
unfolding PathTo
delete_between h a b x n m [] ys p nb k d =
    join_two h a b x n m ys p (λ e. d.0.0 (sym e)) nb d.1.0 d.0.1 k.1 d.1.1
delete_between h a b x n m (z ∷ zs) ys (p, q, r) nb k d =
    let o : h.prev x ≢ a =
      before_rest (λ u. u ≢ a) h z b zs (x ∷ ys) r d.0.0
        (All-left (λ u. u ≢ a) zs (x ∷ ys) d.0.1) in
    let w : x ≢ a = All_at (λ u. u ≢ a) zs ys d.0.1 in
    let v : x ≢ z = All_at (λ u. u ≢ z) zs ys d.1.0 in
    let c = All-right (λ u. u ≢ z) zs (x ∷ ys) d.1.0 in
    let g : h.next x ≢ z =
      subst (λ u. u ≢ z) (sym (next_of h z b x zs ys r))
        (first_or-All (λ u. u ≢ z) b ys (λ e. k.0 (sym e)) c.1) in
    (
      write_other (write h.next (h.prev x) (h.next x)) x n a (λ e. w (sym e))
          ∙ write_other h.next (h.prev x) (h.next x) a (λ e. o (sym e))
          ∙ p,
      write_other (write h.prev (h.next x) (h.prev x)) x m z (λ e. v (sym e))
          ∙ write_other h.prev (h.next x) (h.prev x) z (λ e. g (sym e))
          ∙ q,
      delete_between h z b x n m zs ys r nb k.1 d.1,
    )

Distinct-insert :
    (a item : ℕ) (xs ys : List ℕ)
    → Distinct (a ∷ (xs ++ ys))
    → All (λ y. y ≢ item) (a ∷ (xs ++ ys))
    → Distinct (a ∷ (xs ++ (item ∷ ys)))
Distinct-insert a item [] ys d n = (((λ e. n.0 (sym e)), d.0), (n.1, d.1))
Distinct-insert a item (x ∷ xs) ys d n = (
  (
    d.0.0,
    All-append (λ y. y ≢ a) xs (item ∷ ys) (All-left (λ y. y ≢ a) xs ys d.0.1)
        ((λ e. n.0 (sym e)), All-right (λ y. y ≢ a) xs ys d.0.1),
  ),
  Distinct-insert x item xs ys d.1 n.1,
)

pub All-without :
    (P : ℕ → Type 0) (x : ℕ) (xs ys : List ℕ) → All P (xs ++ (x ∷ ys)) → All P (xs ++ ys)
All-without P x xs ys a =
    All-append P xs ys (All-left P xs (x ∷ ys) a) (All-right P xs (x ∷ ys) a).1

Distinct-without : (x : ℕ) (xs ys : List ℕ) → Distinct (xs ++ (x ∷ ys)) → Distinct (xs ++ ys)
Distinct-without x [] ys d = d.1
Distinct-without x (z ∷ zs) ys d =
    (All-without (λ y. y ≢ z) x zs ys d.0, Distinct-without x zs ys d.1)

-- A node that is not NULL and not on the list, put before the rest ys of the nodes
pub add_between-IsLinked :
    (h : Heap) (head item : ℕ) (xs ys : List ℕ)
    → IsLinked h head (xs ++ ys)
    → item ≢ null
    → All (λ y. y ≢ item) (head ∷ (xs ++ ys))
    → IsLinked
        (list_add h item (h.prev (first_or head ys)) (first_or head ys))
        head
        (xs ++ (item ∷ ys))
add_between-IsLinked h head item xs ys v z n = record {
  links = add_between h head head item xs ys v.links n.0 n.0 n.1 v.apart.0 v.apart;
  apart = Distinct-insert head item xs ys v.apart n;
  nonnull = (
    v.nonnull.0,
    All-append (λ y. y ≢ null) xs (item ∷ ys) (All-left (λ y. y ≢ null) xs ys v.nonnull.1)
        (z, All-right (λ y. y ≢ null) xs ys v.nonnull.1),
  );
}

-- A node taken from anywhere in the list, its links set to n and m
pub delete_between-IsLinked :
    (h : Heap) (head x n m : ℕ) (xs ys : List ℕ)
    → IsLinked h head (xs ++ (x ∷ ys))
    → IsLinked (deleted h x n m) head (xs ++ ys)
delete_between-IsLinked h head x n m xs ys v = record {
  links =
      delete_between h head head x n m xs ys v.links
        (λ e. All_at (λ y. y ≢ head) xs ys v.apart.0 (sym e)) v.apart.0 v.apart;
  apart = (All-without (λ y. y ≢ head) x xs ys v.apart.0, Distinct-without x xs ys v.apart.1);
  nonnull = (v.nonnull.0, All-without (λ y. y ≢ null) x xs ys v.nonnull.1);
}

-- `list_add_head` of a node that is not NULL and not in the list yet puts it behind all others, before the head.
list_add_head-IsLinked :
    (h : Heap) (head item : ℕ) (xs : List ℕ)
    → IsLinked h head xs
    → item ≢ null
    → All (λ y. y ≢ item) (head ∷ xs)
    → IsLinked (list_add_head h item head) head (xs ++ (item ∷ []))
unfolding list_add_head
list_add_head-IsLinked h head item xs v z n =
    let c : (item == null) ≡ false = ground arith in
    let e : xs ++ [] ≡ xs = append-nil xs in
    rw c (add_between-IsLinked h head item xs [] (rw e v) z (rw e n))

-- `list_del` of a node, wherever it is in the list, leaves the list of the others.
list_del-IsLinked :
    (h : Heap) (head x : ℕ) (xs ys : List ℕ)
    → IsLinked h head (xs ++ (x ∷ ys))
    → IsLinked (list_del h x) head (xs ++ ys)
list_del-IsLinked h head x xs ys v =
    let m = v.nonnull.1 in
    let t = All-right (λ y. y ≢ null) xs (x ∷ ys) m in
    let f : h.next x ≢ null =
      subst (λ u. u ≢ null) (sym (next_of h head head x xs ys v.links))
        (first_or-All (λ u. u ≢ null) head ys v.nonnull.0 t.1) in
    let g : h.prev x ≢ null =
      before_rest (λ u. u ≢ null) h head head xs (x ∷ ys) v.links v.nonnull.0
        (All-left (λ u. u ≢ null) xs (x ∷ ys) m) in
    rw (list_del_lem h x f g) (delete_between-IsLinked h head x poison1 poison2 xs ys v)
