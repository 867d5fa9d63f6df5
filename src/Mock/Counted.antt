-- ===== src/Mock/Counted.antt =====
-- CMock/helpers.py: `CountedFunc` and `verifyCalls`, and when `verifyCalls` passes.
use ctypegen.Base.{
  ℕ, ◌+◌, List, [], ◌∷◌, Bool, true, false, Option, none, some, if◌then◌else◌, ◌==◌, ◌≡◌, refl, ◌↔◌,
  arith, length, all, Bool-cases, inl, inr,
}
use ctypegen.Mock.Hook.{
  pre, Function, Hook, HookError, Made, made, failed, Outcome, returned, raised, build, dispatch,
  check_decorations, mocked, enable, disable,
}

-- What the body of the `with` block does: it calls the function, or it raises an exception.
pub data Event : Type 0 where
  call : Event
  raise : Event

-- The hook and the counter `calls` while the body runs.
pub record Watch : Type 0 where
  pub hook : Hook
  pub calls : ℕ

-- One call of the function: the hook, while it is enabled, calls the `CountedFunc`.
unfoldable pub count_call : Watch → Watch
count_call w = if w.hook.enabled then record w { calls = w.calls + 1 } else w

unfoldable pub play : List Event → Watch → Outcome (Unit {0}) × Watch
play [] w = (returned tt, w)
play (call ∷ es) w = play es (count_call w)
play (raise ∷ es) w = (raised, w)

pub data Verified : Type 0 where
  verified assertion_failed body_raised : Verified
  not_made : HookError → Verified

-- What follows the block, by the outcome of its body.
unfoldable pub compare_calls : ℕ → Outcome (Unit {0}) → ℕ → Verified
compare_calls expected (returned u) calls = if calls == expected then verified else assertion_failed
compare_calls expected raised calls = body_raised

-- The `with` block over a hook: enabled for the body, disabled behind it.
unfoldable pub watch : List Event → Hook → Outcome (Unit {0}) × Watch
watch es h =
    let (o, w) = play es (record { hook = enable h; calls = 0 }) in
    (o, record w { hook = disable w.hook })

unfoldable pub verify_made : List Event → ℕ → Made → Verified × Option Hook
verify_made es expected (failed e) = (not_made e, none)
verify_made es expected (made h) =
    let (o, w) = watch es h in (compare_calls expected o w.calls, some w.hook)

-- `verifyCalls`, with the hook that it leaves.
unfoldable pub verify_calls : Function → ℕ → List Event → Verified × Option Hook
verify_calls function expected es = verify_made es expected (mocked function none pre)

abbrev pub is_call : Event → Bool
is_call call = true
is_call raise = false

play_calls :
    (es : List Event) (w : Watch)
    → w.hook.enabled ≡ true
    → all is_call es ≡ true
    → play es w ≡ (returned tt, record w { calls = w.calls + length es })
unfolding play count_call
play_calls [] w on h = ground arith
play_calls (call ∷ es) w on h =
    ground (arith, play_calls es (record w { calls = w.calls + 1 }) on h)
play_calls (raise ∷ es) w on h = cc

play_raises : (es : List Event) (w : Watch) → all is_call es ≡ false → (play es w).0 ≡ raised
unfolding play
play_raises [] w h = cc
play_raises (call ∷ es) w h = play_raises es (count_call w) h
play_raises (raise ∷ es) w h = refl

-- The verdict of the block over a fresh hook.
watch_iff :
    (es : List Event) (h : Hook) (expected : ℕ)
    → (compare_calls expected (watch es h).0 (watch es h).1.calls ≡ verified)
      ↔ ((all is_call es ≡ true) × (length es ≡ expected))
unfolding watch compare_calls enable
watch_iff es h expected = elim (Bool-cases (all is_call es)) [
  | inl calls ↦ rw (play_calls es (record { hook = enable h; calls = 0 }) refl calls) (ground arith)
  | inr raises ↦
      ground (arith, raises, play_raises es (record { hook = enable h; calls = 0 }) raises)
]

mocked_made :
    (function : Function) (argtypes : Option (List ℕ)) {ts : List ℕ}
    → argtypes ≡ some ts
    → (h : Hook) × (check_decorations function none pre argtypes ≡ made h)
unfolding check_decorations dispatch build
mocked_made function none e = absurd (cc)
mocked_made function (some ts') e = (_, refl)

-- For a function with argument types `verifyCalls` passes exactly if the body calls the function as
-- often as expected and raises nothing, and the hook that it leaves is disabled.
pub verify_calls_iff :
    (function : Function) (ts : List ℕ) (expected : ℕ) (es : List Event)
    → function.argtypes ≡ some ts
    → (((verify_calls function expected es).0 ≡ verified)
        ↔ ((all is_call es ≡ true) × (length es ≡ expected)))
      × ((h : Hook) × ((verify_calls function expected es).1 ≡ some h) × (h.enabled ≡ false))
unfolding verify_calls verify_made watch disable mocked
verify_calls_iff function ts expected es e =
    let (h, m) = mocked_made function function.argtypes e in
    rw m (watch_iff es h expected, (_, refl, refl))
