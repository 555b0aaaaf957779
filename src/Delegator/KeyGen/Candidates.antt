-- ===== src/Delegator/KeyGen/Candidates.antt =====
-- The selection of peers in src/delegator/key_gen/candidates.rs. Indexing an empty id and `% 0` panic;
-- the `while` loop takes fuel.
pub mod Loop
pub mod Laws
use gluon_actor.Base.{
  ℕ, zero, suc, ◌+◌, ◌-◌, ◌*◌, ◌%◌, Bool, ◌&&◌, not, String, Option, none, some, List, [], ◌∷◌,
  ◌++◌, Result, ok, err, Error, ◌==◌, ltb, leb, if◌then◌else◌, length, is_empty,
}
use gluon_actor.Base.Errors.{◌>>=◌}
use gluon_actor.Base.Bytes.{Bytes, as_bytes}

-- `bytes[bytes.len() - 1] % n`
abbrev last_byte_mod : ℕ → Bytes → Result ℕ
last_byte_mod n [] = err Error.panic
last_byte_mod n (b ∷ []) = if n == 0 then err Error.panic else ok (b % n)
last_byte_mod n (b ∷ c ∷ bs) = last_byte_mod n (c ∷ bs)

unfoldable pub calculate_lucky_number : ℕ → String → Result ℕ
calculate_lucky_number n id = last_byte_mod n (as_bytes id)

-- `(a as i16 - b as i16).abs() as u8`
abbrev pub lucky_distance : ℕ → ℕ → ℕ
lucky_distance a b = (if ltb a b then b - a else a - b) % 256

-- The `filter` in the loop: what it pushes, and what it keeps.
unfoldable pub split_near : ℕ → ℕ → ℕ → List String → Result (List String × List String)
split_near n lucky_number distance [] = ok ([], [])
split_near n lucky_number distance (item ∷ ids) = do
  lucky ← calculate_lucky_number n item
  (pushed, kept) ← split_near n lucky_number distance ids
  ok (
      if leb (lucky_distance lucky lucky_number) distance
      then (item ∷ pushed, kept)
      else (pushed, item ∷ kept))

unfoldable pub select_loop : ℕ → ℕ → ℕ → ℕ → List String → ℕ → List String → Result (List String)
select_loop zero n lucky_number candidates_count ids distance candidates_peers = err Error.diverges
select_loop (suc fuel) n lucky_number candidates_count ids distance candidates_peers =
    let rest = (do
      (pushed, kept) ← split_near n lucky_number distance ids
      select_loop fuel n lucky_number candidates_count kept ((distance + 1) % 256)
          (candidates_peers ++ pushed)) in
    if ltb (length candidates_peers) candidates_count && not (is_empty ids)
    then rest
    else ok candidates_peers

-- At distance `n - 1` every peer is near, so `n` rounds are enough, and one to leave the loop.
unfoldable pub random_select_peers : List String → ℕ → String → Result (List String)
random_select_peers ids n task_id = if ltb (length ids) (n * 2) then ok ids else do
  lucky_number ← calculate_lucky_number n task_id
  select_loop (suc n) n lucky_number (n * 2) ids 0 []
