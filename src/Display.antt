-- ===== src/Display.antt =====
-- src/drivers/sdi_segment_display.c: a display of one character behind a pin group, each character a
-- pattern of lit segments.
pub mod Shown
use opx_sdi_sys.Base.{
  ℕ, zero, suc, ◌-◌, Bool, true, false, not, List, [], ◌∷◌, min, take, ◌==◌, ◌&&◌, ◌+◌, ◌^◌, leb,
  length, if◌then◌else◌, Io, Result, ok, err, abort, pure, fail, errcode, eopnotsupp, ◌>>=◌, ◌>>◌,
  and_then,
}
use opx_sdi_sys.Base.Strings.{c_string}
use opx_sdi_sys.Bus.Mutex.{then_unlock}
use opx_sdi_sys.Bus.Group.{
  GroupBus, sdi_pin_group_acquire_bus, sdi_pin_group_read_level, sdi_pin_group_write_level,
}

-- SDI_LED_NUM_OF_DIGIT_SUPPORTED
abbrev pub num_of_digit_supported : ℕ
num_of_digit_supported = 1

-- SDI_SEGMENT_DISPLAY_MAP_SIZE
abbrev pub map_size : ℕ
map_size = 256

-- sdi_segment_display_data_t without last_written, which is state. The map is an array of `map_size`
-- patterns; what an index beyond it gives is open, as it is in C.
pub record SegmentDisplay : Type 0 where
  pub off_pattern : ℕ
  pub char_map : ℕ → ℕ

-- `(uint_t)display_string[0]`: a char that is signed, as the platform has it, and negative becomes one
-- of the highest values of a uint_t, far beyond the map.
unfoldable pub char_index : Bool → ℕ → ℕ
char_index is_signed c = if is_signed && leb 128 c then c + (2 ^ 32 - 256) else c

-- `display_string[0]`, 0 where the string is empty.
abbrev pub first_char : List ℕ → ℕ
first_char [] = 0
first_char (c ∷ bytes) = c

-- The first character from `i` on whose pattern is `value`, of `left` characters, or a question mark.
pub parse_value : (ℕ → ℕ) → ℕ → ℕ → ℕ → ℕ
parse_value char_map value i zero = 63
parse_value char_map value i (suc left) =
    let rest = parse_value char_map value (i + 1) left in if char_map i == value then i else rest

module _ {W : Type 0} (bus : GroupBus W) where
  pub sdi_segment_display_set_value : ℕ → Io W (Unit {0})
  unfolding sdi_pin_group_acquire_bus sdi_pin_group_write_level
  sdi_segment_display_set_value value = sdi_pin_group_acquire_bus bus >> λ w.
      then_unlock bus.mutex (sdi_pin_group_write_level bus value w)

  pub sdi_segment_display_get_value : Io W ℕ
  unfolding sdi_pin_group_acquire_bus sdi_pin_group_read_level
  sdi_segment_display_get_value =
      sdi_pin_group_acquire_bus bus >> λ w. then_unlock bus.mutex (sdi_pin_group_read_level bus w)

-- The state of the driver: the hardware, and last_written.
module _ {W : Type 0} (bus : GroupBus W) (display : SegmentDisplay) where
  open display use {off_pattern, char_map}

  abbrev pub on_hardware : {A : Type 0} → Result A × W → ℕ → Result A × (W × ℕ)
  on_hardware (r, w) last_written = (r, (w, last_written))

  -- `buf_size` is the size of the caller's buffer, of which one byte is for the null.
  pub sdi_segment_display_get : ℕ → Io (W × ℕ) (List ℕ)
  unfolding sdi_segment_display_get_value
  sdi_segment_display_get buf_size = do
    read_value ← λ s. on_hardware (sdi_segment_display_get_value bus s.0) s.1
    pure (take (min buf_size 2 - 1) (parse_value char_map read_value 0 map_size ∷ []))

  abbrev pub set_written : ℕ → Result (Unit {0}) × W → ℕ → Result (Unit {0}) × (W × ℕ)
  set_written value (ok tt, w) last_written = (ok tt, (w, value))
  set_written value (err e, w) last_written = (err e, (w, last_written))
  set_written value (abort, w) last_written = (abort, (w, last_written))

  -- `is_signed` tells whether a char of the platform is signed, and `display_string` is the bytes of
  -- the caller's buffer, of which the string ends at the first null.
  unfoldable pub sdi_segment_display_set : Bool → List ℕ → Io (W × ℕ) (Unit {0})
  unfolding sdi_segment_display_set_value char_index c_string
  sdi_segment_display_set is_signed display_string s =
      if length (c_string display_string) == num_of_digit_supported
      then (let led_set_value = char_map (char_index is_signed (first_char display_string)) in
          set_written led_set_value (sdi_segment_display_set_value bus led_set_value s.0) s.1)
      else fail (errcode eopnotsupp) s

  pub sdi_segment_display_get_state : Io (W × ℕ) Bool
  unfolding sdi_segment_display_get_value
  sdi_segment_display_get_state = do
    read_value ← λ s. on_hardware (sdi_segment_display_get_value bus s.0) s.1
    pure (not (read_value == off_pattern))

  pub sdi_segment_display_on : Io (W × ℕ) (Unit {0})
  unfolding sdi_segment_display_set_value
  sdi_segment_display_on s = on_hardware (sdi_segment_display_set_value bus s.1 s.0) s.1

  pub sdi_segment_display_off : Io (W × ℕ) (Unit {0})
  unfolding sdi_segment_display_set_value
  sdi_segment_display_off s = on_hardware (sdi_segment_display_set_value bus off_pattern s.0) s.1
