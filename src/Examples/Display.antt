-- ===== src/Examples/Display.antt =====
-- The segment display behind a pin group of the CPLD.
use opx_sdi_sys.Base.{
  ℕ, ◌-◌, ◌+◌, ◌%◌, ◌^◌, ◌≡◌, refl, arith, true, [], ◌∷◌, ok, err, errcode, eopnotsupp,
}
use opx_sdi_sys.Base.Strings.{c_string}
use opx_sdi_sys.Bus.Latch.{IsLatch}
use opx_sdi_sys.Cpld.Group.Latch.{group_bus, group_level, group_bus-IsLatch}
use opx_sdi_sys.Display.{
  SegmentDisplay, char_index, sdi_segment_display_get, sdi_segment_display_set,
}
use opx_sdi_sys.Display.Shown.{get-set_display}
use opx_sdi_sys.Bus.Group.{GroupBus}
use opx_sdi_sys.Examples.{Memory, memory_bus, memory_peek, memory_bus-IsMemory, lock_of}
use opx_sdi_sys.Examples.Cpld.{cpld, led_group, start}

abbrev bus : GroupBus Memory
bus = group_bus memory_bus memory_peek cpld led_group lock_of

abbrev shown : Memory → ℕ
shown = group_level memory_bus memory_peek cpld led_group lock_of

latch : IsLatch bus shown 8
latch =
    group_bus-IsLatch memory_bus memory_peek cpld led_group lock_of memory_bus-IsMemory refl refl
      (omega arith) (omega arith) (λ w. ((w.0, true), refl, refl)) (λ w. refl)

group_bus-IsLatch_example : IsLatch bus shown (2 ^ (4 - 2 + 1))
group_bus-IsLatch_example =
    group_bus-IsLatch memory_bus memory_peek cpld led_group lock_of memory_bus-IsMemory refl refl
      (omega arith) (omega arith) (λ w. ((w.0, true), refl, refl)) (λ w. refl)

abbrev display : SegmentDisplay
display = record { off_pattern = 0; char_map = λ c. c % 8 }

get-set_display_example :
    ((w' : Memory) × (sdi_segment_display_set bus display true (5 ∷ 0 ∷ 9 ∷ []) (start, 0)
        ≡ (ok tt, (w', 5)))
      × (w'' : Memory) × (sdi_segment_display_get bus display 2 (w', 5) ≡ (ok (5 ∷ []), (w'', 5))))
    × (sdi_segment_display_set bus display true (0 ∷ []) (start, 0)
        ≡ (err (errcode eopnotsupp), (start, 0)))
unfolding c_string
get-set_display_example =
    get-set_display bus shown 8 display true 5 2 0 (9 ∷ []) (0 ∷ []) start latch (omega arith)
      (omega arith) (omega arith) (λ j h. omega arith) (omega arith) (omega arith)

-- Only a text of one character is shown.
two_characters :
    sdi_segment_display_set bus display true (1 ∷ 2 ∷ []) (start, 0)
    ≡ (err (errcode eopnotsupp), (start, 0))
unfolding sdi_segment_display_set c_string
two_characters = refl

-- A character above 127 of a signed char.
negative_character : char_index true 200 ≡ 4294967240
unfolding char_index
negative_character = refl
