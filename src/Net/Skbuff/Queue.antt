-- ===== src/Net/Skbuff/Queue.antt =====
-- A queue of socket buffers is first in, first out.
use prettyos.Common.{
  ℕ, ◌≡◌, ◌≢◌, arith, refl, sym, ap, subst, ◌∙◌, false, List, [], ◌∷◌, ◌++◌, All, All-append, ◌==◌,
}
use prettyos.Libc.Linked.{Heap, null, write}
use prettyos.Libc.Linked.Chain.{
  PathTo, Distinct, IsLinked, write_other, write_same, deleted, pop_front,
}
use prettyos.Net.Skbuff.{skb_dequeue, skb_queue_tail}

-- The heap with the buffer skb between the last one and the head.
abbrev appended : Heap → ℕ → ℕ → Heap
appended h list skb = record {
  next = write (write h.next skb list) (h.prev list) skb;
  prev = write (write h.prev skb (h.prev list)) list skb;
}

skb_queue_tail_lem :
    (h : Heap) (list skb : ℕ)
    → list ≢ skb
    → h.prev list ≢ skb
    → skb_queue_tail h list skb ≡ appended h list skb
unfolding skb_queue_tail
skb_queue_tail_lem h list skb n m =
    let e : write h.prev skb (h.prev list) skb ≡ h.prev list =
      write_same h.prev skb (h.prev list) in
    let f : write (write h.next skb list) (h.prev list) skb skb ≡ list =
      write_other (write h.next skb list) (h.prev list) skb skb (λ d. m (sym d))
      ∙ write_same h.next skb list in
    rw e (rw f refl)

-- A property of all nodes holds of the last one.
last-All {ℓ} :
    (P : ℕ → Type ℓ) (h : Heap) (a b : ℕ) (xs : List ℕ)
    → PathTo h a xs b
    → All P (a ∷ xs)
    → P (h.prev b)
unfolding PathTo
last-All P h a b [] (p, q) f = subst P (sym q) f.0
last-All P h a b (x ∷ xs) (p, q, r) f = last-All P h x b xs r f.1

append_back :
    (h : Heap) (list skb a : ℕ) (xs : List ℕ)
    → PathTo h a xs list
    → Distinct (a ∷ xs)
    → All (λ y. y ≢ list) xs
    → All (λ y. y ≢ skb) (a ∷ xs)
    → list ≢ skb
    → PathTo (appended h list skb) a (xs ++ (skb ∷ [])) list
unfolding PathTo
append_back h list skb a [] (p, q) d o n m =
    let k : h.prev list ≢ skb = λ e. n.0 (sym q ∙ e) in
    (
      ap (λ z. write (write h.next skb list) z skb a) q ∙ write_same _ a skb,
      write_other _ list skb skb (λ e. m (sym e)) ∙ write_same h.prev skb (h.prev list) ∙ q,
      (
        write_other _ (h.prev list) skb skb (λ e. k (sym e)) ∙ write_same h.next skb list,
        write_same _ list skb,
      ),
    )
append_back h list skb a (x ∷ xs) (p, q, r) d o n m =
    let k : h.prev list ≢ a = last-All (λ y. y ≢ a) h x list xs r d.0 in
    (
      write_other _ (h.prev list) skb a (λ e. k (sym e)) ∙ write_other h.next skb list a n.0 ∙ p,
      write_other _ list skb x o.0 ∙ write_other h.prev skb (h.prev list) x n.1.0 ∙ q,
      append_back h list skb x xs r d.1 o.1 n.1 m,
    )

Distinct-append :
    (skb : ℕ) (xs : List ℕ) → Distinct xs → All (λ y. y ≢ skb) xs → Distinct (xs ++ (skb ∷ []))
Distinct-append skb [] d n = (tt, tt)
Distinct-append skb (x ∷ xs) d n = (
  All-append (λ y. y ≢ x) xs (skb ∷ []) d.0 ((λ e. n.0 (sym e)), tt),
  Distinct-append skb xs d.1 n.1,
)

-- `skb_queue_tail` of a buffer that is not NULL and not in the queue yet puts it behind all others.
pub skb_queue_tail-IsLinked :
    (h : Heap) (list skb : ℕ) (xs : List ℕ)
    → IsLinked h list xs
    → skb ≢ null
    → All (λ y. y ≢ skb) (list ∷ xs)
    → IsLinked (skb_queue_tail h list skb) list (xs ++ (skb ∷ []))
skb_queue_tail-IsLinked h list skb xs v z n =
    let k = last-All (λ y. y ≢ skb) h list list xs v.links n in
    rw (skb_queue_tail_lem h list skb n.0 k) (record {
      links = append_back h list skb list xs v.links v.apart v.apart.0 n n.0;
      apart = Distinct-append skb (list ∷ xs) v.apart n;
      nonnull = All-append (λ y. y ≢ null) (list ∷ xs) (skb ∷ []) v.nonnull (z, tt);
    })

-- What `skb_dequeue` does on a queue that is not empty.
pub record Dequeued (list x : ℕ) (xs : List ℕ) (out : ℕ × Heap) : Type 0 where
  pub first : out.0 ≡ x
  pub rest : IsLinked out.1 list xs
  pub no_next : out.1.next x ≡ null
  pub no_prev : out.1.prev x ≡ null

skb_dequeue_lem :
    (h : Heap) (list x : ℕ)
    → h.next list ≡ x
    → h.prev x ≡ list
    → x ≢ list
    → skb_dequeue h list ≡ (x, deleted h x null null)
unfolding skb_dequeue
skb_dequeue_lem h list x e f n =
    let c : (x == list) ≡ false = ground arith in
    let k : write h.next list (h.next x) x ≡ h.next x = write_other h.next list (h.next x) x n in
    rw e (rw c (rw k (rw f refl)))

-- `skb_dequeue` on a queue that is not empty gives the first buffer, with both of its links NULL, and
-- leaves the queue of the others.
skb_dequeue-Dequeued :
    (h : Heap) (list x : ℕ) (xs : List ℕ)
    → IsLinked h list (x ∷ xs)
    → Dequeued list x xs (skb_dequeue h list)
unfolding PathTo
skb_dequeue-Dequeued h list x xs v =
    rw (skb_dequeue_lem h list x v.links.0 v.links.1 v.apart.0.0) (record {
      first = refl;
      rest = record {
        links = pop_front h list x null null xs v;
        apart = (v.apart.0.1, v.apart.1.1);
        nonnull = (v.nonnull.0, v.nonnull.1.1);
      };
      no_next = write_same _ x null;
      no_prev = write_same _ x null;
    })
