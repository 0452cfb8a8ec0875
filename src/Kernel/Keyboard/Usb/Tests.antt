-- ===== src/Kernel/Keyboard/Usb/Tests.antt =====
-- Runs of the USB keyboard driver, and its theorems there.
use stuos.Prelude.{◌≡◌, refl, true, false, [], ◌∷◌}
use stuos.Kernel.Keyboard.Usb.{
  pressed, released, changes, packet_recv, handle_keypress, type_changes, mark_pressed,
  find_released, find_pressed,
}
use stuos.Kernel.Keyboard.Usb.Changes.{changes-difference}

changes-difference_example : changes (4 ∷ 5 ∷ 0 ∷ []) (5 ∷ 6 ∷ 0 ∷ []) ≡ released 4 ∷ pressed 6 ∷ []
changes-difference_example =
    changes-difference (4 ∷ 5 ∷ 0 ∷ []) (5 ∷ 6 ∷ 0 ∷ [])
      ((λ e. refl), ((λ e. refl), ((λ e. absurd (e refl)), tt)))

-- The key of `b` with a shift that is held.
typed_by_packet :
    (packet_recv
      (5 ∷ [])
      (record { previous_report = []; shift_currently_pressed = true; capslock_on = false })).0
    ≡ 66 ∷ []
unfolding packet_recv changes type_changes handle_keypress mark_pressed find_released find_pressed
typed_by_packet = refl
