-- ===== src/Pbuf/Tests.antt =====
-- Runs of sf_pbuf.c, and its theorems at concrete buffers.
use lmq.Prelude.{◌≡◌, refl, true, some, [], ◌∷◌, arith, replicate}
use lmq.Pbuf.{Pbuf, write, resize, relocate}
use lmq.Pbuf.Contents.{Writes, write_lem}
use lmq.Pbuf.Inv.{IsValid}
use lmq.Pbuf.Resize.{Resizes, resize_lem}

-- Six bytes, of which the middle two are data.
abbrev middle : Pbuf
middle = record { len = 6; buf = 1 ∷ 2 ∷ 3 ∷ 4 ∷ 5 ∷ 6 ∷ []; head = 2; tail = 4; owned = true }

abbrev moved : Pbuf
moved = record { len = 6; buf = 3 ∷ 4 ∷ 3 ∷ 4 ∷ 5 ∷ 6 ∷ []; head = 0; tail = 2; owned = true }

middle-IsValid : IsValid middle
middle-IsValid = record { block = refl; ordered = omega arith; within = omega arith }

moved-IsValid : IsValid moved
moved-IsValid = record { block = refl; ordered = omega arith; within = omega arith }

relocate-middle : relocate middle ≡ moved
unfolding relocate
relocate-middle = refl

write-middle :
    write middle (7 ∷ 8 ∷ 9 ∷ [])
    ≡ some (record { len = 6; buf = 3 ∷ 4 ∷ 7 ∷ 8 ∷ 9 ∷ 6 ∷ []; head = 0; tail = 5; owned = true })
unfolding write
write-middle = refl

write_lem_example : Writes middle (7 ∷ 8 ∷ 9 ∷ []) (write middle (7 ∷ 8 ∷ 9 ∷ []))
write_lem_example = write_lem middle (7 ∷ 8 ∷ 9 ∷ []) middle-IsValid

resize_lem_example : Resizes (some (replicate 8 0)) moved 8 (resize (some (replicate 8 0)) moved 8)
resize_lem_example = resize_lem (some (replicate 8 0)) moved 8 moved-IsValid refl refl
