-- ===== src/Mock/Examples.antt =====
-- Fake calls of a function that returns its argument, and counted calls.
use ctypegen.Base.{
  ℕ, ◌+◌, List, [], ◌∷◌, true, false, ◌&&◌, some, if◌then◌else◌, ltb, leb, ◌≡◌, refl, get_elem?,
  ◌↔◌, codes, all, length,
}
use ctypegen.Mock.Hook.{Outcome, returned, Function, value_type, Hook}
use ctypegen.Mock.Fake.{new_fake, choose, counted, fake_call, is_on, fake_fd_call, run, proceed}
use ctypegen.Mock.Window.{fake_calls, matching, fake_fd_calls}
use ctypegen.Mock.Counted.{call, is_call, verified, verify_calls, verify_calls_iff}

abbrev echo : ℕ → Outcome ℕ
echo a = returned a

abbrev fail : ℕ → Outcome ℕ
fail a = returned 255

abbrev some_calls : List ℕ
some_calls = 10 ∷ 11 ∷ 12 ∷ 13 ∷ []

fake_run :
    run (fake_call echo fail) (new_fake 1 2) some_calls
    ≡ returned 10 ∷ returned 255 ∷ returned 255 ∷ returned 13 ∷ []
unfolding run proceed fake_call choose counted
fake_run = refl

fake_calls_example :
    get_elem? (run (fake_call echo fail) (new_fake 1 2) some_calls) 2
    ≡ some (if leb 1 2 && ltb 2 (1 + 2) then fail 12 else echo 12)
fake_calls_example = fake_calls echo fail 1 2 some_calls 2 12 (λ b. cc) (λ b. cc) refl

abbrev echo_fd : ℕ × ℕ → Outcome ℕ
echo_fd c = returned c.1

abbrev fail_fd : ℕ × ℕ → Outcome ℕ
fail_fd c = returned 255

abbrev fd_calls : List (ℕ × ℕ)
fd_calls = (3, 10) ∷ (4, 11) ∷ (3, 12) ∷ []

fake_fd_run :
    run (fake_fd_call echo_fd fail_fd (some 3)) (new_fake 1 1) fd_calls
    ≡ returned 10 ∷ returned 11 ∷ returned 255 ∷ []
unfolding run proceed fake_fd_call is_on fake_call choose counted
fake_fd_run = refl

fake_fd_calls_example :
    get_elem? (run (fake_fd_call echo_fd fail_fd (some 3)) (new_fake 1 1) fd_calls) 2
    ≡ some (
        if is_on (some 3) 3
          && (leb 1 (matching (some 3) fd_calls 2) && ltb (matching (some 3) fd_calls 2) (1 + 1))
        then fail_fd (3, 12)
        else echo_fd (3, 12))
fake_fd_calls_example =
    fake_fd_calls echo_fd fail_fd (some 3) 1 1 fd_calls 2 (3, 12) (λ b. cc) (λ b. cc) refl

abbrev read : Function
read = record { name = codes "read"; restype = value_type 0; argtypes = some (0 ∷ []) }

verify_calls_iff_example :
    (((verify_calls read 2 (call ∷ call ∷ [])).0 ≡ verified)
      ↔ ((all is_call (call ∷ call ∷ []) ≡ true) × (length (call ∷ call ∷ []) ≡ 2)))
    × ((h : Hook) × ((verify_calls read 2 (call ∷ call ∷ [])).1 ≡ some h) × (h.enabled ≡ false))
verify_calls_iff_example = verify_calls_iff read (0 ∷ []) 2 (call ∷ call ∷ []) refl
