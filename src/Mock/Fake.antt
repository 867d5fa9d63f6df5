-- ===== src/Mock/Fake.antt =====
-- CMock/helpers.py: `FakeSyscall` and `FakeFdSyscall`. A call of the C function or of the mock
-- function returns or raises; an exception aborts the process.
use ctypegen.Base.{
  ℕ, ◌+◌, List, [], ◌∷◌, Bool, true, ◌||◌, Option, none, some, if◌then◌else◌, ltb, leb, ◌==◌,
}
use ctypegen.Mock.Hook.{Outcome, returned, raised}

pub record Fake : Type 0 where
  pub calls : ℕ
  pub start : ℕ
  pub count : ℕ

-- `FakeSyscall.__init__`
abbrev pub new_fake : ℕ → ℕ → Fake
new_fake start count = record { calls = 0; start = start; count = count }

module _ {A R : Type 0} (realfunc mockfunc : A → Outcome R) where
  -- The choice in `FakeSyscall.__call__`.
  unfoldable pub choose : Fake → A → Outcome R
  choose s args =
      if ltb s.calls s.start || leb (s.start + s.count) s.calls
      then realfunc args
      else mockfunc args

  -- A call that raises is not counted.
  unfoldable pub counted : Fake → Outcome R → Outcome R × Fake
  counted s (returned r) = (returned r, record s { calls = s.calls + 1 })
  counted s raised = (raised, s)

  -- `FakeSyscall.__call__`
  unfoldable pub fake_call : Fake → A → Outcome R × Fake
  fake_call s args = counted s (choose s args)

-- `self.onFd == fd or self.onFd is None`
unfoldable pub is_on : Option ℕ → ℕ → Bool
is_on none fd = true
is_on (some on) fd = on == fd

module _ {A R : Type 0} (realfunc mockfunc : ℕ × A → Outcome R) where
  -- `FakeFdSyscall.__call__`, whose first argument is the descriptor.
  unfoldable pub fake_fd_call : Option ℕ → Fake → ℕ × A → Outcome R × Fake
  fake_fd_call on s (fd, args) =
      if is_on on fd then fake_call realfunc mockfunc s (fd, args) else (realfunc (fd, args), s)

-- The replies behind one reply: an exception ends the process.
unfoldable pub proceed : {R : Type 0} → Outcome R → List (Outcome R) → List (Outcome R)
proceed (returned r) rest = returned r ∷ rest
proceed raised rest = raised ∷ []

-- The calls that a program makes, one after the other.
unfoldable pub run : {A R S : Type 0} → (S → A → Outcome R × S) → S → List A → List (Outcome R)
run call s [] = []
run call s (a ∷ more) = let (reply, s') = call s a in proceed reply (run call s' more)
