-- ===== src/Kernel/Ring/Tests.antt =====
-- The buffers at concrete contents, and the theorems at concrete inputs.
use prettyos.Common.{◌+◌, ◌≤◌, ◌<◌, ◌≡◌, refl, [], ◌∷◌, ◌++◌, arith}
use prettyos.Kernel.Ring.{Ring, put, get, advance}
use prettyos.Kernel.Ring.Contents.{IsRing, entries, contents, put-Queued, get-Taken}

-- Two entries of three, around the end.
abbrev around : Ring
around = record { buf = λ i. i + 10; p_head = 1; p_tail = 2; count = 2 }

around-contents : contents 3 around ≡ 12 ∷ 10 ∷ []
unfolding contents entries advance
around-contents = refl

around-IsRing : IsRing 3 around
around-IsRing = record { tail = omega arith; fits = omega arith; head = refl }

put-Queued_example :
    IsRing 3 (put 3 around 7)
    × (around.count < 3 → contents 3 (put 3 around 7) ≡ contents 3 around ++ (7 ∷ []))
    × (3 ≤ around.count → put 3 around 7 ≡ around)
put-Queued_example = put-Queued 3 around 7 around-IsRing

get-Taken_example :
    IsRing 3 (get 3 around).1 × (contents 3 around ≡ (get 3 around).0 ∷ contents 3 (get 3 around).1)
get-Taken_example = get-Taken 3 around around-IsRing (omega arith)
