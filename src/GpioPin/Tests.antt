-- ===== src/GpioPin/Tests.antt =====
-- The pin at concrete inputs: an output pin that is low, with a callback that keeps the edges.
use dtmc_base.Common.{◌≡◌, refl, List, [], ◌∷◌, none, some, true, false}
use dtmc_base.GpioPin.{Edge, rising, falling, Pin, PinConfig, mode_output}
use dtmc_base.GpioPin.Device.{zeroed, init, configure, enable, write}
use dtmc_base.GpioPin.Edges.{
  edges_from, Leads, write_all, keep_edge, write_all-Leads, call_configure, call_enable, call_write,
  call_set_behavior, apply_pin, PinCall, apply_pins, Mirrored, apply_pins-Mirrored,
}

abbrev output_config : PinConfig
output_config = record { pin_number = 4; mode = mode_output; pull = 0; drive = 0 }

abbrev output_pin : Pin (List Edge)
output_pin =
    let p : Pin (List Edge) = zeroed in
    record p {
      config = output_config;
      irq_enabled = true;
      cb = some keep_edge;
      behavior = record p.behavior { auto_edge_on_write = true };
    }

write_all-Leads_example :
    let (p', w) = write_all output_pin (true ∷ true ∷ false ∷ []) [] in
    (w ≡ falling ∷ rising ∷ []) × Leads false w p'.level
unfolding edges_from
write_all-Leads_example = write_all-Leads output_pin (true ∷ true ∷ false ∷ []) refl refl refl refl

-- A test that switches automatic edges on for a pin that is high.
abbrev calls : List (PinCall (List Edge))
calls =
    call_configure output_config
    ∷ call_enable true
    ∷ call_write true
    ∷ call_set_behavior (record {
      start_level_high = false;
      auto_edge_on_write = true;
      emit_edge_on_enable = false;
      irq_enabled_snapshot = true;
      last_level_snapshot = true;
    })
    ∷ call_write false
    ∷ []

apply_pins-Mirrored_example : Mirrored (apply_pins calls (init {W = List Edge} (λ n. none)).1 []).0
unfolding apply_pin init configure enable write
apply_pins-Mirrored_example =
    apply_pins-Mirrored (λ n. none) calls [] (tt, (tt, (tt, ((refl, refl), (tt, tt)))))
