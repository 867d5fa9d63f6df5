-- ===== src/Mock/Window.antt =====
-- Which calls of a fake system call reach the mock function.
use ctypegen.Base.{
  ℕ, zero, suc, ◌+◌, List, [], ◌∷◌, Bool, ◌&&◌, Option, some, if◌then◌else◌, ltb, leb, ◌≡◌, refl,
  arith, get_elem?, ◌≢◌, Bool-cases, inl, inr,
}
use ctypegen.Mock.Hook.{Outcome, returned, raised}
use ctypegen.Mock.Fake.{
  Fake, new_fake, choose, counted, fake_call, is_on, fake_fd_call, proceed, run,
}

-- Call number `n` lies in the window of `count` calls from `start` on.
abbrev pub in_window : Fake → ℕ → Bool
in_window s n = leb s.start n && ltb n (s.start + s.count)

proceed_returns :
    {R : Type 0} (o : Outcome R) (rest : List (Outcome R)) → o ≢ raised → proceed o rest ≡ o ∷ rest
unfolding proceed
proceed_returns (returned r) rest h = refl
proceed_returns raised rest h = absurd (h refl)

run-cons :
    {A R S : Type 0} (call : S → A → Outcome R × S) (s : S) (a : A) (args : List A) {o : Outcome R}
    {s' : S}
    → call s a ≡ (o, s')
    → o ≢ raised
    → run call s (a ∷ args) ≡ o ∷ run call s' args
unfolding run
run-cons call s a args {o} {s'} e h = rw e (proceed_returns o (run call s' args) h)

module _ {A R : Type 0} (realfunc mockfunc : A → Outcome R)
    (real_returns : (a : A) → realfunc a ≢ raised)
    (mock_returns : (a : A) → mockfunc a ≢ raised) where
  abbrev pub windowed : Fake → ℕ → A → Outcome R
  windowed s n a = if in_window s n then mockfunc a else realfunc a

  choose-windowed : (s : Fake) (a : A) → choose realfunc mockfunc s a ≡ windowed s s.calls a
  unfolding choose
  choose-windowed s a = ground arith

  choose_returns : (s : Fake) (a : A) → choose realfunc mockfunc s a ≢ raised
  unfolding choose
  choose_returns s a = ground (arith, real_returns a, mock_returns a)

  counted_lem :
      (s : Fake) (o : Outcome R)
      → o ≢ raised
      → counted realfunc mockfunc s o ≡ (o, record s { calls = s.calls + 1 })
  unfolding counted
  counted_lem s (returned r) h = refl
  counted_lem s raised h = absurd (h refl)

  fake_call_lem :
      (s : Fake) (a : A)
      → fake_call realfunc mockfunc s a ≡ (windowed s s.calls a, record s { calls = s.calls + 1 })
  unfolding fake_call
  fake_call_lem s a = rw (counted_lem s _ (choose_returns s a), choose-windowed s a) refl

  windowed_returns : (s : Fake) (n : ℕ) (a : A) → windowed s n a ≢ raised
  windowed_returns s n a = ground (arith, real_returns a, mock_returns a)

  run-first :
      (s : Fake) (b : A) (args : List A)
      → run (fake_call realfunc mockfunc) s (b ∷ args)
        ≡ windowed s s.calls b
          ∷ run (fake_call realfunc mockfunc) (record s { calls = s.calls + 1 }) args
  run-first s b args =
      run-cons (fake_call realfunc mockfunc) s b args (fake_call_lem s b)
        (windowed_returns s s.calls b)

  -- The reply to call `i` of a sequence, from any number of earlier calls.
  run-fake_call :
      (s : Fake) (args : List A) (i : ℕ) (a : A)
      → get_elem? args i ≡ some a
      → get_elem? (run (fake_call realfunc mockfunc) s args) i ≡ some (windowed s (s.calls + i) a)
  run-fake_call s [] i a e = absurd (cc)
  run-fake_call s (b ∷ args) zero a e =
      let here : s.calls + 0 ≡ s.calls = omega arith in
      let same : b ≡ a = cc in rw (run-first s b args) (rw (here, same) refl)
  run-fake_call s (b ∷ args) (suc i) a e =
      let shift : s.calls + suc i ≡ (s.calls + 1) + i = omega arith in
      rw (run-first s b args)
        (rw shift (run-fake_call (record s { calls = s.calls + 1 }) args i a e))

-- A fake system call made with `start` and `count`, of functions that raise nothing: the calls from
-- `start` on, `count` of them, reach the mock function, and all others the C function.
pub fake_calls :
    {A R : Type 0} (realfunc mockfunc : A → Outcome R) (start count : ℕ) (args : List A) (i : ℕ)
    (a : A)
    → ((b : A) → realfunc b ≢ raised)
    → ((b : A) → mockfunc b ≢ raised)
    → get_elem? args i ≡ some a
    → get_elem? (run (fake_call realfunc mockfunc) (new_fake start count) args) i
      ≡ some (if leb start i && ltb i (start + count) then mockfunc a else realfunc a)
fake_calls realfunc mockfunc start count args i a real mock e =
    let here : 0 + i ≡ i = omega arith in
    rw here at (run-fake_call realfunc mockfunc real mock (new_fake start count) args i a e)

-- How many of the first `i` calls are on the descriptor.
abbrev pub matching : {A : Type 0} → Option ℕ → List (ℕ × A) → ℕ → ℕ
matching on [] i = 0
matching on (c ∷ cs) zero = 0
matching on (c ∷ cs) (suc i) = (if is_on on c.0 then 1 else 0) + matching on cs i

module _ {A R : Type 0} (realfunc mockfunc : ℕ × A → Outcome R)
    (real_returns : (a : ℕ × A) → realfunc a ≢ raised)
    (mock_returns : (a : ℕ × A) → mockfunc a ≢ raised) (on : Option ℕ) where
  abbrev after : Fake → ℕ × A → Fake
  after s c = record s { calls = s.calls + (if is_on on c.0 then 1 else 0) }

  abbrev fd_windowed : Fake → ℕ → ℕ × A → Outcome R
  fd_windowed s n c = if is_on on c.0 && in_window s n then mockfunc c else realfunc c

  fake_fd_call_lem :
      (s : Fake) (c : ℕ × A)
      → fake_fd_call realfunc mockfunc on s c ≡ (fd_windowed s s.calls c, after s c)
  unfolding fake_fd_call
  fake_fd_call_lem s c = elim (Bool-cases (is_on on c.0)) [
    | inl m ↦ rw (m, fake_call_lem realfunc mockfunc real_returns mock_returns s c) refl
    | inr m ↦ let same : s.calls + 0 ≡ s.calls = omega arith in rw m (ground arith)
  ]

  fd_windowed_returns : (s : Fake) (n : ℕ) (c : ℕ × A) → fd_windowed s n c ≢ raised
  fd_windowed_returns s n c = ground (arith, real_returns c, mock_returns c)

  run-first_fd :
      (s : Fake) (b : ℕ × A) (args : List (ℕ × A))
      → run (fake_fd_call realfunc mockfunc on) s (b ∷ args)
        ≡ fd_windowed s s.calls b ∷ run (fake_fd_call realfunc mockfunc on) (after s b) args
  run-first_fd s b args =
      run-cons (fake_fd_call realfunc mockfunc on) s b args (fake_fd_call_lem s b)
        (fd_windowed_returns s s.calls b)

  run-fake_fd_call :
      (s : Fake) (args : List (ℕ × A)) (i : ℕ) (c : ℕ × A)
      → get_elem? args i ≡ some c
      → get_elem? (run (fake_fd_call realfunc mockfunc on) s args) i
        ≡ some (fd_windowed s (s.calls + matching on args i) c)
  run-fake_fd_call s [] i c e = absurd (cc)
  run-fake_fd_call s (b ∷ args) zero c e =
      let here : s.calls + 0 ≡ s.calls = omega arith in
      let same : b ≡ c = cc in rw (run-first_fd s b args) (rw (here, same) refl)
  run-fake_fd_call s (b ∷ args) (suc i) c e =
      let shift : s.calls + ((if is_on on b.0 then 1 else 0) + matching on args i)
          ≡ (s.calls + (if is_on on b.0 then 1 else 0)) + matching on args i =
        omega arith in
      rw (run-first_fd s b args) (rw shift (run-fake_fd_call (after s b) args i c e))

-- A fake system call for a descriptor, or for all of them, of functions that raise nothing: of the
-- calls on the descriptor those from `start` on, `count` of them, reach the mock function, and all
-- other calls the C function. Calls on other descriptors are not counted.
pub fake_fd_calls :
    {A R : Type 0} (realfunc mockfunc : ℕ × A → Outcome R) (on : Option ℕ) (start count : ℕ)
    (args : List (ℕ × A)) (i : ℕ) (c : ℕ × A)
    → ((b : ℕ × A) → realfunc b ≢ raised)
    → ((b : ℕ × A) → mockfunc b ≢ raised)
    → get_elem? args i ≡ some c
    → get_elem? (run (fake_fd_call realfunc mockfunc on) (new_fake start count) args) i
      ≡ some (
          if is_on on c.0
            && (leb start (matching on args i) && ltb (matching on args i) (start + count))
          then mockfunc c
          else realfunc c)
fake_fd_calls realfunc mockfunc on start count args i c real mock e =
    let here : 0 + matching on args i ≡ matching on args i = omega arith in
    rw here at (run-fake_fd_call realfunc mockfunc real mock on (new_fake start count) args i c e)
