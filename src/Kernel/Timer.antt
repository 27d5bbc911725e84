-- ===== src/Kernel/Timer.antt =====
-- The ring of timers of kernel/timer.c. The links are a heap of the linked lists; `timer_header` is the header's
-- address, and its `expires` is the greatest number of 32 bits.
mod Tests
pub mod Ring
pub mod Removal
use prettyos.Common.{
  ℕ, zero, suc, ◌+◌, ◌-◌, ◌%◌, ◌^◌, Bool, true, false, Option, none, some, List, [], ◌∷◌, ltb, ◌==◌,
  if◌then◌else◌,
}
use prettyos.Common.Int.{ℤ, pos, neg}
use prettyos.Libc.Linked.{Heap, null, list_add, set_next, set_prev}
use prettyos.Kernel.Sched.{set_at}

pub record Timers : Type 0 where
  pub links : Heap
  pub expires : ℕ → ℕ
  pub timer_header : ℕ
  pub jiffies : ℕ

abbrev pub no_expiry : ℕ
no_expiry = 2 ^ 32 - 1

unfoldable pub init_timer : ℕ → Timers → Timers
init_timer timer s = record s { links = set_next (set_prev s.links timer null) timer null }

-- The walk of `add_timer`, on fuel: `q` is the timer reached, and the result is the next one, `p`.
unfoldable pub find_place : ℕ → Timers → ℕ → ℕ → Option ℕ
find_place zero s expires q = none
find_place (suc fuel) s expires q = elim (ltb (s.expires (s.links.next q)) expires) [
  | true ↦ find_place fuel s expires (s.links.next q)
  | false ↦ some (s.links.next q)
]

-- The next timer is never NULL, as the links are a ring. `none` where the fuel runs out.
unfoldable pub place_timer : ℕ → Timers → Option ℕ → Option Timers
place_timer timer s none = none
place_timer timer s (some p) = some (record s { links = list_add s.links timer (s.links.prev p) p })

unfoldable pub add_timer : ℕ → ℕ → Timers → Option Timers
add_timer fuel timer s =
    let e = (s.expires timer + s.jiffies) % 2 ^ 32 in
    let s' : Timers = record s { expires = set_at s.expires timer e } in
    place_timer timer s' (find_place fuel s' e s.timer_header)

-- The node without its neighbours' links to it, its own links NULL
unfoldable pub unlink_timer : ℕ → Timers → Timers
unlink_timer timer s =
    let h = s.links in
    let h1 = set_next h (h.prev timer) (h.next timer) in
    let h2 = set_prev h1 (h.next timer) (h.prev timer) in
    record s {
      links = set_prev (set_next h2 timer null) timer null;
      expires = set_at s.expires timer ((s.expires timer + 2 ^ 32 - s.jiffies) % 2 ^ 32);
    }

-- The walk of `del_timer`, on fuel, from the timer `p`
unfoldable pub del_loop : ℕ → ℕ → ℕ → Timers → Option (ℤ × Timers)
del_loop zero timer p s = none
del_loop (suc fuel) timer p s = elim (s.links.next p == null) [
  | true ↦ some (neg 1, s)
  | false ↦ elim (s.links.next p == timer) [
    | true ↦ some (pos 0, unlink_timer timer s)
    | false ↦ del_loop fuel timer (s.links.next p) s
  ]
]

unfoldable pub del_timer : ℕ → ℕ → Timers → Option (ℤ × Timers)
del_timer fuel timer s = del_loop fuel timer s.timer_header s
