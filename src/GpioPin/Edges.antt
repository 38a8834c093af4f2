-- ===== src/GpioPin/Edges.antt =====
-- The edges that the pin of dtgpiopin_dummy.c reports, and the mirrors of its state.
use dtmc_base.Common.{
  ℕ, ◌≡◌, refl, List, [], ◌∷◌, Option, none, some, Dterr, Bool, true, false, ◌||◌, ◌==◌, arith, inl,
  inr, Bool-cases, if◌then◌else◌,
}
use dtmc_base.GpioPin.{Edge, rising, falling, Pin, PinConfig, PinBehavior, mode_output, mode_inout}
use dtmc_base.GpioPin.Device.{
  init, configure, set_behavior, attach, enable, write, emit, edge_of, is_change,
}

-- A callback that keeps the edges, the newest first.
abbrev pub keep_edge : Edge → ℕ → List Edge → List Edge
keep_edge e context w = e ∷ w

unfoldable pub write_all : {W : Type 0} → Pin W → List Bool → W → Pin W × W
write_all p [] w = (p, w)
write_all p (l ∷ ls) w = let (_, p', w') = write p l w in write_all p' ls w'

-- The edges, the newest first, alternate and lead from the first level to the present one.
abbrev pub Leads : Bool → List Edge → Bool → Type 0
Leads first [] now = now ≡ first
Leads first (rising ∷ es) now = (now ≡ true) × Leads first es false
Leads first (falling ∷ es) now = (now ≡ false) × Leads first es true

abbrev pub Reports : Bool → Pin (List Edge) → List Edge → Type 0
Reports first p w =
    (p.cb ≡ some keep_edge)
    × (p.irq_enabled ≡ true)
    × (p.behavior.auto_edge_on_write ≡ true)
    × ((p.config.mode == mode_output || p.config.mode == mode_inout) ≡ true)
    × Leads first w p.level

Leads-step :
    (first now new : Bool) (es : List Edge)
    → is_change now new ≡ true
    → Leads first es now
    → Leads first (edge_of new ∷ es) new
Leads-step first true false es c h = (refl, h)
Leads-step first false true es c h = (refl, h)
Leads-step first true true es c h = absurd (ground arith)
Leads-step first false false es c h = absurd (ground arith)

abbrev written : {W : Type 0} → Pin W → Bool → Pin W
written p new = record p { level = new; behavior = record p.behavior { last_level_snapshot = new } }

write_change :
    (first new : Bool) (p : Pin (List Edge)) (w : List Edge)
    → Reports first p w
    → is_change p.level new ≡ true
    → write p new w ≡ (none, written p new, edge_of new ∷ w)
unfolding write emit
write_change first new p w (c, i, a, m, l) change = rw (m, i, a, change, c) refl

write_same :
    (first new : Bool) (p : Pin (List Edge)) (w : List Edge)
    → Reports first p w
    → is_change p.level new ≡ false
    → write p new w ≡ (none, written p new, w)
unfolding write
write_same first new p w (c, i, a, m, l) same = rw (m, i, a, same) refl

is_change-eq : (a b : Bool) → is_change a b ≡ false → a ≡ b
is_change-eq true true h = refl
is_change-eq false false h = refl
is_change-eq true false h = absurd (ground arith)
is_change-eq false true h = absurd (ground arith)

write-Reports :
    (first new : Bool) (p : Pin (List Edge)) (w : List Edge)
    → Reports first p w
    → let (_, p', w') = write p new w in Reports first p' w'
write-Reports first new p w h = elim (Bool-cases (is_change p.level new)) [
  | inl change ↦
      let (c, i, a, m, l) = h in
      rw (write_change first new p w h change) (c, i, a, m, Leads-step first p.level new w change l)
  | inr same ↦
      let (c, i, a, m, l) = h in
      rw (write_same first new p w h same) (c, i, a, m, rw (is_change-eq p.level new same) at l)
]

write_all_lem :
    (first : Bool) (p : Pin (List Edge)) (ls : List Bool) (w : List Edge)
    → Reports first p w
    → let (p', w') = write_all p ls w in Reports first p' w'
unfolding write_all
write_all_lem first p [] w h = h
write_all_lem first p (l ∷ ls) w h =
    write_all_lem first (write p l w).1 ls (write p l w).2 (write-Reports first l p w h)

-- One edge for each change of level, the newest first.
unfoldable pub edges_from : Bool → List Bool → List Edge → List Edge
edges_from level [] w = w
edges_from level (l ∷ ls) w = edges_from l ls (if is_change level l then edge_of l ∷ w else w)

write_all-edges_from :
    (first : Bool) (p : Pin (List Edge)) (ls : List Bool) (w : List Edge)
    → Reports first p w
    → (write_all p ls w).1 ≡ edges_from p.level ls w
unfolding write_all edges_from
write_all-edges_from first p [] w h = refl
write_all-edges_from first p (l ∷ ls) w h = elim (Bool-cases (is_change p.level l)) [
  | inl change ↦
      let e = write_change first l p w h change in
      rw (change, write_all, e)
        (write_all-edges_from first (written p l) ls (edge_of l ∷ w)
          (rw e at (write-Reports first l p w h)))
  | inr same ↦
      let e = write_same first l p w h same in
      rw (same, write_all, e)
        (write_all-edges_from first (written p l) ls w (rw e at (write-Reports first l p w h)))
]

-- On a pin in output or inout mode with interrupts on, automatic edges on writes and a callback, over
-- any writes: the callback gets one edge for each change of the level, in order, and so the edges
-- alternate and lead from the level before the writes to the level after them.
pub write_all-Leads :
    (p : Pin (List Edge)) (ls : List Bool)
    → p.cb ≡ some keep_edge
    → p.irq_enabled ≡ true
    → p.behavior.auto_edge_on_write ≡ true
    → (p.config.mode == mode_output || p.config.mode == mode_inout) ≡ true
    → let (p', w) = write_all p ls [] in (w ≡ edges_from p.level ls []) × Leads p.level w p'.level
write_all-Leads p ls c i a m =
    let h : Reports p.level p [] = (c, i, a, m, refl) in
    (write_all-edges_from p.level p ls [] h, (write_all_lem p.level p ls [] h).4)

-- A call of one of the functions that change the pin.
pub data PinCall (W : Type 0) : Type 0 where
  call_configure : PinConfig → PinCall W
  call_set_behavior : PinBehavior → PinCall W
  call_attach : Option (Edge → ℕ → W → W) → ℕ → PinCall W
  call_enable call_write : Bool → PinCall W

unfoldable pub apply_pin : {W : Type 0} → PinCall W → Pin W → W → Dterr × Pin W × W
apply_pin (call_configure c) p w = let (e, p') = configure p c in (e, p', w)
apply_pin (call_set_behavior b) p w = let (e, p') = set_behavior p b in (e, p', w)
apply_pin (call_attach cb context) p w = let (e, p') = attach p cb context in (e, p', w)
apply_pin (call_enable on) p w = enable p on w
apply_pin (call_write l) p w = write p l w

unfoldable pub apply_pins : {W : Type 0} → List (PinCall W) → Pin W → W → Pin W × W
apply_pins [] p w = (p, w)
apply_pins (c ∷ cs) p w = let (_, p', w') = apply_pin c p w in apply_pins cs p' w'

-- The mirrors of this behavior agree with the state of the pin.
abbrev pub Mirrors : {W : Type 0} → PinBehavior → Pin W → Type 0
Mirrors b p = (b.irq_enabled_snapshot ≡ p.irq_enabled) × (b.last_level_snapshot ≡ p.level)

abbrev pub Mirrored : {W : Type 0} → Pin W → Type 0
Mirrored p = Mirrors p.behavior p

-- A new behavior has mirrors that agree with the pin, as `get_behavior` gives them.
abbrev pub KeepsMirrors : {W : Type 0} → PinCall W → Pin W → Type 0
KeepsMirrors (call_set_behavior b) p = Mirrors b p
KeepsMirrors (call_configure c) p = Unit
KeepsMirrors (call_attach cb context) p = Unit
KeepsMirrors (call_enable on) p = Unit
KeepsMirrors (call_write l) p = Unit

-- Each call is so, on the pin that it finds.
abbrev pub AllKeepMirrors : {W : Type 0} → List (PinCall W) → Pin W → W → Type 0
AllKeepMirrors [] p w = Unit
AllKeepMirrors (c ∷ cs) p w =
    KeepsMirrors c p × AllKeepMirrors cs (apply_pin c p w).1 (apply_pin c p w).2

apply_pin-Mirrored :
    {W : Type 0} (c : PinCall W) (p : Pin W) (w : W)
    → KeepsMirrors c p
    → Mirrored p
    → Mirrored (apply_pin c p w).1
unfolding apply_pin configure set_behavior attach enable write
apply_pin-Mirrored (call_configure c) p w f h = ground arith
apply_pin-Mirrored (call_set_behavior b) p w f h = f
apply_pin-Mirrored (call_attach cb context) p w f h = h
apply_pin-Mirrored (call_enable on) p w f h = (refl, h.1)
apply_pin-Mirrored (call_write l) p w f h = ground arith

apply_pins_lem :
    {W : Type 0} (cs : List (PinCall W)) (p : Pin W) (w : W)
    → AllKeepMirrors cs p w
    → Mirrored p
    → Mirrored (apply_pins cs p w).0
unfolding apply_pins
apply_pins_lem [] p w f h = h
apply_pins_lem (c ∷ cs) p w (f, fs) h =
    apply_pins_lem cs (apply_pin c p w).1 (apply_pin c p w).2 fs (apply_pin-Mirrored c p w f h)

-- After `init` and any calls of `configure`, `set_behavior`, `attach`, `enable` and `write`, the mirrors
-- of the level and of the interrupt switch in the behavior agree with the pin, if those that each
-- `set_behavior` brings agree with the pin that it finds.
pub apply_pins-Mirrored :
    {W : Type 0} (set_vtable : ℕ → Dterr) (cs : List (PinCall W)) (w : W)
    → AllKeepMirrors cs (init set_vtable).1 w
    → Mirrored (apply_pins cs (init set_vtable).1 w).0
unfolding init
apply_pins-Mirrored set_vtable cs w f = apply_pins_lem cs (init set_vtable).1 w f (refl, refl)
