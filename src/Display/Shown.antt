-- ===== src/Display/Shown.antt =====
-- What the segment display shows.
use opx_sdi_sys.Base.{
  ℕ, zero, suc, ◌+◌, ◌-◌, ◌≤◌, ◌<◌, ◌≡◌, ◌≢◌, refl, ap, ap₂, ◌∙◌, arith, Bool, true, false, List,
  length, err, errcode, eopnotsupp, not, [], ◌∷◌, min, take, ◌==◌, if◌then◌else◌, ok, ℕ_discrete,
  ==_iff,
}
use opx_sdi_sys.Base.Strings.{c_string}
use opx_sdi_sys.Bus.Group.{
  GroupBus, sdi_pin_group_acquire_bus, sdi_pin_group_read_level, sdi_pin_group_write_level,
}
use opx_sdi_sys.Bus.Latch.{IsLatch}
use opx_sdi_sys.Display.{
  SegmentDisplay, char_index, map_size, parse_value, sdi_segment_display_set_value,
  sdi_segment_display_get_value, sdi_segment_display_get, sdi_segment_display_set,
  sdi_segment_display_get_state, sdi_segment_display_on, sdi_segment_display_off, on_hardware,
  set_written,
}

module _ {W : Type 0} {bus : GroupBus W} {level : W → ℕ} {limit : ℕ}
    (latch : IsLatch bus level limit) where
  set_value_lem :
      (v : ℕ) (w : W)
      → v < limit
      → (w' : W) × (sdi_segment_display_set_value bus v w ≡ (ok tt, w')) × (level w' ≡ v)
  unfolding sdi_segment_display_set_value sdi_pin_group_acquire_bus sdi_pin_group_write_level
  set_value_lem v w fits =
      let locked = latch.locks w in
      let wrote = latch.writes locked.0 v fits in
      (
        bus.mutex.unlock wrote.0,
        rw (locked.1, latch.group, wrote.1),
        latch.level-unlock wrote.0 ∙ wrote.2,
      )

  get_value_lem :
      (w : W)
      → (w' : W) × (sdi_segment_display_get_value bus w ≡ (ok (level w), w')) × (level w' ≡ level w)
  unfolding sdi_segment_display_get_value sdi_pin_group_acquire_bus sdi_pin_group_read_level
  get_value_lem w =
      let locked = latch.locks w in
      (
        bus.mutex.unlock locked.0,
        rw (locked.1, latch.group, latch.reads locked.0)
            (ap (λ l. (ok l, bus.mutex.unlock locked.0)) locked.2),
        latch.level-unlock locked.0 ∙ locked.2,
      )

-- The search gives the first character with the pattern.
parse_value_lem :
    (char_map : ℕ → ℕ) (c i left : ℕ)
    → i ≤ c
    → c < i + left
    → ((j : ℕ) → j < c → char_map j ≢ char_map c)
    → parse_value char_map (char_map c) i left ≡ c
unfolding parse_value
parse_value_lem char_map c i zero low high first = absurd (omega arith)
parse_value_lem char_map c i (suc left) low high first = elim (ℕ_discrete i c) [
  | yes e ↦ found e
  | no ne ↦ ground (
    arith,
    first i (omega arith),
    parse_value_lem char_map c (i + 1) left (omega arith) (omega arith) first,
  )
]
  where
    found : i ≡ c → parse_value char_map (char_map c) i (suc left) ≡ c
    found e =
        let same : (char_map i == char_map c) ≡ true = (==_iff _ _).1 (ap char_map e) in
        ap (λ b. if b then i else parse_value char_map (char_map c) (i + 1) left) same ∙ e

one_char : (c : ℕ) (behind : List ℕ) → 0 < c → (length (c_string (c ∷ 0 ∷ behind)) == 1) ≡ true
unfolding c_string
one_char c behind visible = let seen : (c == 0) ≡ false = ground arith in rw seen refl

char_index_lem :
    (is_signed : Bool) (c : ℕ)
    → c < (if is_signed then 128 else map_size)
    → char_index is_signed c ≡ c
unfolding char_index
char_index_lem true c known = ground arith
char_index_lem false c known = refl

module _ {W : Type 0} (bus : GroupBus W) (level : W → ℕ) (limit : ℕ)
    (display : SegmentDisplay) where
  open display use {off_pattern, char_map}

  -- On a pin group that keeps the levels below a limit, for a character that is not the null and is
  -- below 128, or below 256 where a char is unsigned, and whose pattern is below the limit and that of
  -- no smaller character: setting the display to the string of this character succeeds, whatever
  -- stands behind its null; getting it then, into a buffer of two bytes at least, gives the character,
  -- and last_written is its pattern. Setting it to a string that has not one character gives
  -- EOPNOTSUPP and leaves the hardware and last_written alone.
  pub get-set_display :
      (is_signed : Bool) (c buf_size last : ℕ) (behind other : List ℕ) (w : W)
      → IsLatch bus level limit
      → 0 < c
      → c < (if is_signed then 128 else map_size)
      → char_map c < limit
      → ((j : ℕ) → j < c → char_map j ≢ char_map c)
      → 2 ≤ buf_size
      → length (c_string other) ≢ 1
      → ((w' : W) × (sdi_segment_display_set bus display is_signed (c ∷ 0 ∷ behind) (w, last)
            ≡ (ok tt, (w', char_map c)))
          × (w'' : W) × (sdi_segment_display_get bus display buf_size (w', char_map c)
              ≡ (ok (c ∷ []), (w'', char_map c))))
        × (sdi_segment_display_set bus display is_signed other (w, last)
            ≡ (err (errcode eopnotsupp), (w, last)))
  unfolding sdi_segment_display_set sdi_segment_display_get
  get-set_display is_signed c buf_size last behind other w latch visible known fits first room
        long =
      let wrote = set_value_lem latch (char_map c) w fits in
      let got = get_value_lem latch wrote.0 in
      let one : (length (c_string (c ∷ 0 ∷ behind)) == 1) ≡ true = one_char c behind visible in
      let many : (length (c_string other) == 1) ≡ false = ground (arith, long) in
      let at : char_index is_signed c ≡ c = char_index_lem is_signed c known in
      (
        (
          wrote.0,
          rw (one, at) (ap (λ r. set_written bus display (char_map c) r last) wrote.1),
          got.0,
          rw (got.1, wrote.2)
              (ap₂ (λ n x. (ok (take n (x ∷ [])), (got.0, char_map c))) (size room)
                (parse_value_lem char_map c 0 map_size (omega arith) (below is_signed known)
                  first)),
        ),
        rw many refl,
      )
    where
      size : 2 ≤ buf_size → min buf_size 2 - 1 ≡ 1
      size h = omega arith

      below : (is_signed : Bool) → c < (if is_signed then 128 else map_size) → c < 0 + map_size
      below true h = omega arith
      below false h = omega arith

  -- On a pin group that keeps the levels below a limit, where off_pattern and last_written are below
  -- it: turning the display off succeeds and its state is then off; turning it on after that
  -- succeeds, shows last_written again, and keeps last_written as it was.
  on-off :
      (last : ℕ) (w : W)
      → IsLatch bus level limit
      → off_pattern < limit
      → last < limit
      → (w1 w2 w3 : W) × (sdi_segment_display_off bus display (w, last) ≡ (ok tt, (w1, last)))
        × (sdi_segment_display_get_state bus display (w1, last) ≡ (ok false, (w2, last)))
        × (sdi_segment_display_on bus display (w2, last) ≡ (ok tt, (w3, last)))
        × (level w3 ≡ last)
  unfolding sdi_segment_display_off sdi_segment_display_get_state sdi_segment_display_on
  on-off last w latch dark bright =
      let off = set_value_lem latch off_pattern w dark in
      let state = get_value_lem latch off.0 in
      let on = set_value_lem latch last state.0 bright in
      (
        off.0,
        state.0,
        on.0,
        ap (λ r. on_hardware bus display r last) off.1,
        rw (state.1, off.2)
            (ap (λ b. (ok (not b), (state.0, last))) ((==_iff off_pattern off_pattern).1 refl)),
        ap (λ r. on_hardware bus display r last) on.1,
        on.2,
      )
