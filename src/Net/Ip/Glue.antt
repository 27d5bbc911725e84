-- ===== src/Net/Ip/Glue.antt =====
-- What `ip_frq_glue` of net/inet/ip.c writes for fragments without gaps.
use prettyos.Common.{
  ℕ, ◌+◌, ◌-◌, ◌*◌, ◌%◌, ◌^◌, ◌≤◌, ◌<◌, ◌≡◌, ◌⊎◌, refl, ap, ◌∙◌, true, false, List, [], ◌∷◌, All,
  ◌==◌, ltb, arith, Bool-cases, inl, inr, ltb→lt, ltb_false→le, if◌then◌else◌,
}
use prettyos.Libc.Strings.{Mem}
use prettyos.Libc.Klibc.{
  store_word, Apart, copy_loop, u_phys_copy, u_phys_copy_at, u_phys_copy_out, store_word_out,
  copy_loop_in, copy_loop_out,
}
use prettyos.Net.Ip.{
  Ipfrag, Ipfq, glued, glue_loop, done_loop, with_length, ip_frq_glue, ip_frq_done,
}
use prettyos.Net.Ip.Order.{IsOrdered, last_end}

-- One behind the other.
abbrev pub IsTight : ℕ → List Ipfrag → Type 0
IsTight lo [] = Unit
IsTight lo (f ∷ fs) = (f.offset ≡ lo) × (f.offset ≤ f.end) × IsTight f.end fs

-- The byte of the fragments at an offset
abbrev pub byte_at : Mem → ℕ → List Ipfrag → ℕ
byte_at m x [] = 0
byte_at m x (f ∷ fs) = if ltb x f.end then m (f.ptr + (x - f.offset)) else byte_at m x fs

-- The bytes of the fragments, and a byte more, are not in a range.
abbrev pub AllOutside : ℕ → ℕ → List Ipfrag → Type 0
AllOutside first last fs =
    All (λ (f : Ipfrag). (0 < f.ptr) × ((f.ptr + (f.end - f.offset) ≤ first) ⊎ (last < f.ptr))) fs

pub done_loop-IsTight :
    (lo : ℕ) (fs : List Ipfrag) → IsOrdered lo fs → done_loop lo fs ≡ true → IsTight lo fs
unfolding done_loop
done_loop-IsTight lo [] o d = tt
done_loop-IsTight lo (f ∷ fs) o d = elim (Bool-cases (ltb lo f.offset)) [
  | inl c ↦ absurd (ground (arith, (rw c at (d))))
  | inr c ↦ (ground (arith, o.0), o.1, done_loop-IsTight f.end fs o.2 (rw c at (d)))
]

IsTight-last_end : (lo : ℕ) (fs : List Ipfrag) → IsTight lo fs → lo ≤ last_end lo fs
IsTight-last_end lo [] t = omega arith
IsTight-last_end lo (f ∷ fs) t = omega (arith, IsTight-last_end f.end fs t.2, t.0, t.1)

byte_at-agree :
    (m n : Mem) (first last x lo : ℕ) (fs : List Ipfrag)
    → ((i : ℕ) → (i < first) ⊎ (last < i) → m i ≡ n i)
    → AllOutside first last fs
    → IsTight lo fs
    → lo ≤ x
    → byte_at m x fs ≡ byte_at n x fs
byte_at-agree m n first last x lo [] e h t a = refl
byte_at-agree m n first last x lo (f ∷ fs) e h t a = elim (Bool-cases (ltb x f.end)) [
  | inl c ↦
      let k : x < f.end = ltb→lt x f.end c in
      let o : (f.ptr + (x - f.offset) < first) ⊎ (last < f.ptr + (x - f.offset)) = elim h.0.1 [
        | inl p ↦ inl (omega (arith, t.0))
        | inr p ↦ inr (omega arith)
      ] in
      rw c (e (f.ptr + (x - f.offset)) o)
  | inr c ↦ rw c (byte_at-agree m n first last x f.end fs e h.1 t.2 (ltb_false→le x f.end c))
]

-- The bytes of a list are at their offsets, and nothing changed outside a range.
record IsCopied (m : Mem) (ptr lo : ℕ) (fs : List Ipfrag) (n : Mem) : Type 0 where
  bytes_of : (x : ℕ) → lo ≤ x → x < last_end lo fs → n (ptr + x) ≡ byte_at m x fs
  others : (i : ℕ) → (i < ptr + lo) ⊎ (ptr + last_end lo fs < i) → n i ≡ m i

after_copy :
    (m : Mem) (ptr lo : ℕ) (f : Ipfrag) (fs : List Ipfrag) (n : Mem)
    → AllOutside (ptr + lo) (ptr + last_end lo (f ∷ fs)) (f ∷ fs)
    → IsTight lo (f ∷ fs)
    → IsCopied (copy_loop (f.end - f.offset) m (ptr + f.offset) f.ptr) ptr f.end fs n
    → IsCopied m ptr lo (f ∷ fs) n
after_copy m ptr lo f fs n h t c =
    let size = f.end - f.offset in
    let m1 = copy_loop size m (ptr + f.offset) f.ptr in
    let start = ptr + f.offset in
    let last = ptr + last_end f.end fs in
    let above : f.end ≤ last_end f.end fs = IsTight-last_end f.end fs t.2 in
    let kept : (i : ℕ) → (i < ptr + lo) ⊎ (last < i) → m1 i ≡ m i =
      λ i o. copy_loop_out size m start f.ptr i (ground (arith, t.0, t.1)) in
    let apart : Apart start f.ptr size = ground (arith, t.0, t.1, h.0.1) in
    record {
      bytes_of = λ x a b. elim (Bool-cases (ltb x f.end)) [
        | inl k ↦
            let inside : x < f.end = ltb→lt x f.end k in
            let place : ptr + x ≡ start + (x - f.offset) = omega (arith, t.0) in
            rw k (
              c.others (ptr + x) (inl (omega arith))
              ∙ ap m1 place
              ∙ copy_loop_in size m start f.ptr (x - f.offset) apart (omega (arith, t.0)))
        | inr k ↦
            let later : f.end ≤ x = ltb_false→le x f.end k in
            rw k (
              c.bytes_of x later b
              ∙ byte_at-agree m1 m (ptr + lo) last x f.end fs kept h.1 t.2 later)
      ];
      others = λ i o. c.others i (ground (arith, t.0, t.1)) ∙ kept i o;
    }

AllOutside-shrink :
    (first later last : ℕ) (fs : List Ipfrag)
    → first ≤ later
    → AllOutside first last fs
    → AllOutside later last fs
AllOutside-shrink first later last [] a h = tt
AllOutside-shrink first later last (f ∷ fs) a h = (
  (h.0.0, elim h.0.1 [ inl p ↦ inl (omega arith) | inr p ↦ inr p ]),
  AllOutside-shrink first later last fs a h.1,
)

AllOutside-until :
    (first last further : ℕ) (fs : List Ipfrag)
    → last ≤ further
    → AllOutside first further fs
    → AllOutside first last fs
AllOutside-until first last further [] a h = tt
AllOutside-until first last further (f ∷ fs) a h = (
  (h.0.0, elim h.0.1 [ inl p ↦ inl p | inr p ↦ inr (omega arith) ]),
  AllOutside-until first last further fs a h.1,
)

glue_loop-IsCopied :
    (limit count : ℕ) (m : Mem) (ptr lo : ℕ) (fs : List Ipfrag)
    → 0 < ptr
    → IsTight lo fs
    → AllOutside (ptr + lo) (ptr + last_end lo fs) fs
    → count + (last_end lo fs - lo) ≤ limit
    → (n : Mem) × (glue_loop limit count m ptr fs ≡ glued (count + (last_end lo fs - lo)) n)
      × IsCopied m ptr lo fs n
unfolding glue_loop
glue_loop-IsCopied limit count m ptr lo [] z t h k = (
  m,
  (let same : count ≡ count + (lo - lo) = omega arith in ap (λ c. glued c m) same),
  record { bytes_of = λ x a b. absurd (omega arith); others = λ i o. refl },
)
glue_loop-IsCopied limit count m ptr lo (f ∷ fs) z t h k =
    let size = f.end - f.offset in
    let m1 = copy_loop size m (ptr + f.offset) f.ptr in
    let above : f.end ≤ last_end f.end fs = IsTight-last_end f.end fs t.2 in
    let forward : ltb f.end f.offset ≡ false = ground (arith, t.1) in
    let fits : ltb limit (count + size) ≡ false = ground (arith, t.0, t.1) in
    let copied : (u_phys_copy m (ptr + f.offset) f.ptr size).1 ≡ m1 =
      u_phys_copy_at m (ptr + f.offset) f.ptr size (ground arith) h.0.0 in
    let sum : count + size + (last_end f.end fs - f.end) ≡ count + (last_end f.end fs - lo) =
      omega (arith, t.0, t.1) in
    let (n, run, rest) =
      glue_loop-IsCopied limit (count + size) m1 ptr f.end fs z t.2
        (AllOutside-shrink (ptr + lo) (ptr + f.end) (ptr + last_end f.end fs) fs
          (omega (arith, t.0, t.1)) h.1)
        (omega arith) in
    (
      n,
      rw forward (rw fits (rw copied (run ∙ ap (λ c. glued c n) sum))),
      after_copy m ptr lo f fs n h t rest,
    )

-- For fragments in order and without overlaps that `ip_frq_done` finds complete, outside the new
-- buffer, which is long enough by the length of the queue: `ip_frq_glue` counts the bytes up to the end of the last one, and
-- behind the two headers the buffer has at each offset the byte that the fragments have there.
pub ip_frq_glue-byte_at :
    (m : Mem) (buffer : ℕ) (q : Ipfq)
    → 0 < buffer
    → 20 ≤ q.ihlen
    → IsOrdered 0 q.fragments
    → ip_frq_done q ≡ true
    → last_end 0 q.fragments ≤ q.len
    → AllOutside buffer (buffer + q.maclen + q.ihlen + q.len) q.fragments
    → (n : Mem) × (ip_frq_glue m buffer q ≡ glued (last_end 0 q.fragments) n)
      × ((x : ℕ)
          → x < last_end 0 q.fragments
          → n (buffer + q.maclen + q.ihlen + x) ≡ byte_at m x q.fragments)
unfolding ip_frq_glue ip_frq_done with_length
ip_frq_glue-byte_at m buffer q z header o d l h =
    let fs = q.fragments in
    let iph = buffer + q.maclen in
    let base = iph + q.ihlen in
    let end = last_end 0 fs in
    let m1 = (u_phys_copy m buffer q.mac q.maclen).1 in
    let m2 = (u_phys_copy m1 iph q.iph q.ihlen).1 in
    let known : (q.len == 0) ≡ false = elim (Bool-cases (q.len == 0)) [
      | inl c ↦ absurd (ground (arith, (rw c at (d))))
      | inr c ↦ c
    ] in
    let t : IsTight 0 fs = done_loop-IsTight 0 fs o (rw known at (d)) in
    let (n, run, copied) =
      glue_loop-IsCopied (q.ihlen + q.len) 0 m2 base 0 fs (omega arith) t
        (AllOutside-until (base + 0) (base + end) (base + q.len) fs (omega arith)
          (AllOutside-shrink buffer (base + 0) (base + q.len) fs (omega arith) h))
        (omega arith) in
    let plain : 0 + (end - 0) ≡ end = omega arith in
    let length_word = (q.header.ihl * 4 + (0 + (end - 0))) % 2 ^ 16 in
    (
      store_word (store_word n (iph + 6) 0) (iph + 2) length_word,
      ap (with_length iph q.header.ihl) run
          ∙ ap (λ c. glued c (store_word (store_word n (iph + 6) 0) (iph + 2) length_word)) plain,
      (λ x b.
          store_word_out (store_word n (iph + 6) 0) (iph + 2) length_word (base + x)
            (inr (omega arith))
          ∙ store_word_out n (iph + 6) 0 (base + x) (inr (omega arith))
          ∙ copied.bytes_of x (omega arith) b
          ∙ byte_at-agree m2 m buffer (base + q.len) x 0 fs
              (λ i out.
                u_phys_copy_out m1 iph q.iph q.ihlen i (ground arith)
                ∙ u_phys_copy_out m buffer q.mac q.maclen i (ground arith))
              h t (omega arith)),
    )
