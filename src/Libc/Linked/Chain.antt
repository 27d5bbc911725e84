-- ===== src/Libc/Linked/Chain.antt =====
-- The nodes of a list in order, and what the operations make of them.
use prettyos.Common.{
  ℕ, zero, suc, ◌+◌, ◌<◌, ◌≡◌, ◌≢◌, refl, sym, ap, subst, ◌∙◌, true, false, some, List, [], ◌∷◌,
  All, ◌==◌, arith, length,
}
use prettyos.Common.Int.{ℤ, pos}
use prettyos.Libc.Linked.{
  Heap, null, write, list_add, list_add_tail, list_join, list_del, list_get_head, list_get_head_del,
  list_num, num_loop, entry_after, poison1, poison2,
}

-- From a over the nodes xs to b, linked both ways.
unfoldable pub PathTo : Heap → ℕ → List ℕ → ℕ → Type 0
PathTo h a [] b = (h.next a ≡ b) × (h.prev b ≡ a)
PathTo h a (x ∷ xs) b = (h.next a ≡ x) × (h.prev x ≡ a) × PathTo h x xs b

-- No node twice, no head among them, none at NULL.
abbrev pub Distinct : List ℕ → Type 0
Distinct [] = Unit
Distinct (x ∷ xs) = All (λ y. y ≢ x) xs × Distinct xs

-- The list of `head` holds the nodes xs.
pub record IsLinked (h : Heap) (head : ℕ) (xs : List ℕ) : Type 0 where
  pub links : PathTo h head xs head
  pub apart : Distinct (head ∷ xs)
  pub nonnull : All (λ y. y ≢ null) (head ∷ xs)

-- A path on which no link has changed.
pub PathTo-frame :
    (h h' : Heap) (a b : ℕ) (xs : List ℕ)
    → All (λ y. h'.next y ≡ h.next y) (a ∷ xs)
    → All (λ y. h'.prev y ≡ h.prev y) (b ∷ xs)
    → PathTo h a xs b
    → PathTo h' a xs b
unfolding PathTo
PathTo-frame h h' a b [] f g (p, q) = (f.0 ∙ p, g.0 ∙ q)
PathTo-frame h h' a b (x ∷ xs) f g (p, q, r) =
    (f.0 ∙ p, g.1.0 ∙ q, PathTo-frame h h' x b xs f.1 (g.0, g.1.1) r)

pub write_other : (f : ℕ → ℕ) (a v b : ℕ) → b ≢ a → write f a v b ≡ f b
unfolding write
write_other f a v b n = let c : (a == b) ≡ false = ground arith in rw c refl

pub write_same : (f : ℕ → ℕ) (a v : ℕ) → write f a v a ≡ v
unfolding write
write_same f a v = let c : (a == a) ≡ true = ground arith in rw c refl

-- Nodes apart from two addresses keep what is written there.
pub keep_two :
    (f : ℕ → ℕ) (a v b w : ℕ) (xs : List ℕ)
    → All (λ y. y ≢ a) xs
    → All (λ y. y ≢ b) xs
    → All (λ y. write (write f a v) b w y ≡ f y) xs
keep_two f a v b w [] p q = tt
keep_two f a v b w (x ∷ xs) p q =
    (write_other (write f a v) b w x q.0 ∙ write_other f a v x p.0, keep_two f a v b w xs p.1 q.1)

add_front :
    (h : Heap) (head item : ℕ) (xs : List ℕ)
    → IsLinked h head xs
    → item ≢ null
    → All (λ y. y ≢ item) (head ∷ xs)
    → PathTo (list_add h item head (h.next head)) head (item ∷ xs) head
unfolding PathTo list_add
add_front h head item [] v z n =
    let e = v.links.0 in
    let ne : head ≢ item = n.0 in
    (
      write_same _ head item,
      write_same _ item head,
      (
        write_other _ head item item (λ d. ne (sym d)) ∙ write_same h.next item (h.next head) ∙ e,
        write_other _ item head head ne
            ∙ ap (λ a. write h.prev a item head) e
            ∙ write_same h.prev head item,
      ),
    )
add_front h head item (x ∷ xs) v z n =
    let (e, f, p) = v.links in
    let ne : head ≢ item = n.0 in
    let hx : head ≢ x = λ d. v.apart.0.0 (sym d) in
    (
      write_same _ head item,
      write_same _ item head,
      (
        write_other _ head item item (λ d. ne (sym d)) ∙ write_same h.next item (h.next head) ∙ e,
        write_other _ item head x n.1.0
            ∙ ap (λ a. write h.prev a item x) e
            ∙ write_same h.prev x item,
        PathTo-frame h _ x head xs
            (keep_two h.next item (h.next head) head item (x ∷ xs) n.1 v.apart.0)
            (keep_two h.prev (h.next head) item item head (head ∷ xs)
              (subst (λ a. All (λ y. y ≢ a) (head ∷ xs)) (sym e) (hx, v.apart.1.0)) (n.0, n.1.1))
            p,
      ),
    )

-- `list_add_tail` of a node that is not NULL and not in the list yet puts it before all others, right
-- after the head.
pub list_add_tail-IsLinked :
    (h : Heap) (head item : ℕ) (xs : List ℕ)
    → IsLinked h head xs
    → item ≢ null
    → All (λ y. y ≢ item) (head ∷ xs)
    → IsLinked (list_add_tail h item head) head (item ∷ xs)
unfolding list_add_tail
list_add_tail-IsLinked h head item xs v z n =
    let c : (item == null) ≡ false = ground arith in
    rw c (record {
      links = add_front h head item xs v z n;
      apart = (((λ d. n.0 (sym d)), v.apart.0), (n.1, v.apart.1));
      nonnull = (v.nonnull.0, (z, v.nonnull.1));
    })

-- What `list_get_head_del` does on a list that is not empty.
pub record Popped (h : Heap) (head x : ℕ) (xs : List ℕ) (out : ℤ × ℕ × Heap) : Type 0 where
  pub done : out.0 ≡ pos 0
  pub entry : out.1 ≡ x
  pub rest : IsLinked out.2 head xs

-- The heap after a node was taken out and its links set to n and p.
abbrev pub deleted : Heap → ℕ → ℕ → ℕ → Heap
deleted h x n p = record {
  next = write (write h.next (h.prev x) (h.next x)) x n;
  prev = write (write h.prev (h.next x) (h.prev x)) x p;
}

pub list_del_lem :
    (h : Heap) (x : ℕ)
    → h.next x ≢ null
    → h.prev x ≢ null
    → list_del h x ≡ deleted h x poison1 poison2
unfolding list_del list_join
list_del_lem h x p q =
    let c : (h.next x == null) ≡ false = ground arith in
    let d : (h.prev x == null) ≡ false = ground arith in rw (c, d) refl

pub pop_front :
    (h : Heap) (head x n m : ℕ) (xs : List ℕ)
    → IsLinked h head (x ∷ xs)
    → PathTo (deleted h x n m) head xs head
unfolding PathTo
pop_front h head x n m [] v =
    let (e, f, (g, k)) = v.links in
    let hx : head ≢ x = λ d. v.apart.0.0 (sym d) in
    (
      write_other _ x n head hx
          ∙ ap (λ a. write h.next a (h.next x) head) f
          ∙ write_same h.next head (h.next x)
          ∙ g,
      write_other _ x m head hx
          ∙ ap (λ a. write h.prev a (h.prev x) head) g
          ∙ write_same h.prev head (h.prev x)
          ∙ f,
    )
pop_front h head x n m (y ∷ ys) v =
    let (e, f, (g, k, p)) = v.links in
    let hx : head ≢ x = λ d. v.apart.0.0 (sym d) in
    let hy : head ≢ y = λ d. v.apart.0.1.0 (sym d) in
    let yx : y ≢ x = v.apart.1.0.0 in
    (
      write_other _ x n head hx
          ∙ ap (λ a. write h.next a (h.next x) head) f
          ∙ write_same h.next head (h.next x)
          ∙ g,
      write_other _ x m y yx
          ∙ ap (λ a. write h.prev a (h.prev x) y) g
          ∙ write_same h.prev y (h.prev x)
          ∙ f,
      PathTo-frame h _ y head ys
          (keep_two h.next (h.prev x) (h.next x) x n (y ∷ ys)
            (subst (λ a. All (λ z. z ≢ a) (y ∷ ys)) (sym f) v.apart.0.1) v.apart.1.0)
          (keep_two h.prev (h.next x) (h.prev x) x m (head ∷ ys)
            (subst (λ a. All (λ z. z ≢ a) (head ∷ ys)) (sym g) (hy, v.apart.1.1.0))
            (hx, v.apart.1.0.1))
          p,
    )

neighbours :
    (h : Heap) (head x : ℕ) (xs : List ℕ)
    → IsLinked h head (x ∷ xs)
    → (h.next x ≢ null) × (h.prev x ≢ null)
unfolding PathTo
neighbours h head x [] v =
    let (e, f, (g, k)) = v.links in ((λ d. v.nonnull.0 (sym g ∙ d)), (λ d. v.nonnull.0 (sym f ∙ d)))
neighbours h head x (y ∷ ys) v =
    let (e, f, (g, k, p)) = v.links in
    ((λ d. v.nonnull.1.1.0 (sym g ∙ d)), (λ d. v.nonnull.0 (sym f ∙ d)))

-- `list_get_head_del` on a list that is not empty returns 0, gives the first node, and leaves the list of
-- the others.
list_get_head_del-Popped :
    (h : Heap) (head x old : ℕ) (xs : List ℕ)
    → IsLinked h head (x ∷ xs)
    → Popped h head x xs (list_get_head_del h head old)
unfolding list_get_head_del list_get_head entry_after PathTo
list_get_head_del-Popped h head x old xs v =
    let e = v.links.0 in
    let z : head ≢ null = v.nonnull.0 in
    let zx : x ≢ null = v.nonnull.1.0 in
    let n : x ≢ head = v.apart.0.0 in
    let c : (head == null) ≡ false = ground arith in
    let d : (h.next head == head) ≡ false = ground arith in
    let f : (h.next head == null) ≡ false = ground arith in
    let w : IsLinked (list_del h x) head xs = record {
      links =
          let (p, q) = neighbours h head x xs v in
          subst (λ z. PathTo z head xs head) (sym (list_del_lem h x p q))
            (pop_front h head x poison1 poison2 xs v);
      apart = (v.apart.0.1, v.apart.1.1);
      nonnull = (z, v.nonnull.1.1);
    } in
    rw (c, d, f)
      (record {
        done = refl;
        entry = e;
        rest = subst (λ a. IsLinked (list_del h a) head xs) (sym e) w;
      })

num_loop_lem :
    (fuel : ℕ) (h : Heap) (head a num : ℕ) (xs : List ℕ)
    → PathTo h a xs head
    → All (λ y. y ≢ head) xs
    → length xs < fuel
    → num_loop fuel h head (h.next a) num ≡ some (num + length xs)
unfolding num_loop PathTo
num_loop_lem zero h head a num xs p n l = absurd (omega arith)
num_loop_lem (suc fuel) h head a num [] p n l =
    let e = p.0 in
    let c : (h.next a == head) ≡ true = ground arith in
    rw (c, num_loop) (ap some (let d : num ≡ num + 0 = omega arith in d))
num_loop_lem (suc fuel) h head a num (x ∷ xs) (e, f, p) n l =
    let z : x ≢ head = n.0 in
    let c : (h.next a == head) ≡ false = ground arith in
    rw (c, num_loop)
      (ap (λ y. num_loop fuel h head (h.next y) (num + 1)) e
        ∙ num_loop_lem fuel h head x (num + 1) xs p n.1 (omega arith)
        ∙ ap some (let d : num + 1 + length xs ≡ num + length (x ∷ xs) = omega arith in d))

-- `list_num` of a list ends, within one round more than it has nodes, and is the number of its nodes.
pub list_num_lem :
    (fuel : ℕ) (h : Heap) (head : ℕ) (xs : List ℕ)
    → IsLinked h head xs
    → length xs < fuel
    → list_num fuel h head ≡ some (length xs)
unfolding list_num
list_num_lem fuel h head xs v l =
    num_loop_lem fuel h head head 0 xs v.links v.apart.0 l
    ∙ ap some (let d : 0 + length xs ≡ length xs = omega arith in d)
