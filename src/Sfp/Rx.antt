-- ===== src/Sfp/Rx.antt =====
-- src/drivers/sdi_sfp_eeprom.c: the alarms of the receiver of an SFP module.
use opx_sdi_sys.Base.{
  ℕ, ◌≡◌, refl, subst, Bool, true, false, Io, Result, ok, err, abort, pure, fail, errcode, and_then,
  ◌==◌, eopnotsupp, einval,
}
use opx_sdi_sys.Base.StdBits.{StdBits}
use opx_sdi_sys.Bus.Mutex.{Mutex, with_lock, then_unlock}
use opx_sdi_sys.EntityReset.Keeps.{both_branches}
use opx_sdi_sys.Media.{any_bit, first_flag, selection}
use opx_sdi_sys.Sfp.{SfpDevice, selected, no_channel, sdi_is_alarm_flags_supported}
use opx_sdi_sys.Sfp.Monitor.{
  alarm_status_1, alarm_status_2, warning_status_1, warning_status_2, channel_flags, if_alarms,
  read_channel, read_if, sdi_sfp_channel_monitor_status_get,
}

first_flags_low :
    (a b : Bool) → any_bit (first_flag a 4 false 8 (first_flag b 1 false 2 0)) 0xA ≡ false
first_flags_low true true = refl
first_flags_low true false = refl
first_flags_low false true = refl
first_flags_low false false = refl

-- What an outcome gives, if it gives anything.
abbrev IfOk : {W A : Type 0} → (A → Type 0) → Result A × W → Type 0
IfOk P (ok a, w) = P a
IfOk P (err e, w) = Unit
IfOk P (abort, w) = Unit

abbrev Always : {W A : Type 0} → (A → Type 0) → Io W A → Type 0
Always {W} P call = (w : W) → IfOk P (call w)

IfOk-then :
    {W A B : Type 0} (Q : A → Type 0) (P : B → Type 0) (r : Result A × W) (k : A → Io W B)
    → IfOk Q r
    → ((a : A) → Q a → Always P (k a))
    → IfOk P (and_then r k)
IfOk-then Q P (ok a, w) k h next = next a h w
IfOk-then Q P (err e, w) k h next = tt
IfOk-then Q P (abort, w) k h next = tt

any : {W A : Type 0} (call : Io W A) → Always (λ a. Unit {0}) call
any {W} {A} call w = after (call w)
  where
    after : (r : Result A × W) → IfOk (λ a. Unit {0}) r
    after (ok a, w') = tt
    after (err e, w') = tt
    after (abort, w') = tt

Always-with_lock :
    {W A : Type 0} (P : A → Type 0) (m : Mutex W) (body : Io W A)
    → Always P body
    → Always P (with_lock m body)
unfolding with_lock
Always-with_lock {W} {A} P m body h w =
    IfOk-then (λ a. Unit {0}) P (m.lock w) (λ _ u. then_unlock m (body u)) (any m.lock w)
      λ a _ u. after (body u) (h u)
  where
    after : (r : Result A × W) → IfOk P r → IfOk P (then_unlock m r)
    after (ok a, w') p = p
    after (err e, w') p = tt
    after (abort, w') p = tt

module _ {W : Type 0} (bits : StdBits) (dev : SfpDevice W) (flags : ℕ)
    (no_alarm : any_bit flags 0x330 ≡ false) (no_warning : any_bit flags 0xCC0 ≡ false) where
  -- The bytes of the transmitter are not read.
  abbrev WithoutTx : ℕ × ℕ × ℕ × ℕ → Type 0
  WithoutTx (tx_alarm, rx_alarm, tx_warn, rx_warn) = (tx_alarm ≡ 0) × (tx_warn ≡ 0)

  not_read :
      (mask offset : ℕ)
      → any_bit flags mask ≡ false
      → Always (λ buf. buf ≡ 0) (read_if bits dev flags mask offset)
  unfolding read_if
  not_read mask offset none_asked w = rw none_asked refl

  read_channel-Always : Always WithoutTx (read_channel bits dev flags)
  unfolding read_channel
  read_channel-Always w =
      IfOk-then (λ buf. buf ≡ 0) WithoutTx (read_if bits dev flags 0x330 alarm_status_1 w) _
        (not_read 0x330 alarm_status_1 no_alarm w)
        λ tx_alarm e w1.
          IfOk-then (λ buf. Unit {0}) WithoutTx (read_if bits dev flags 0x3 alarm_status_2 w1) _
            (any (read_if bits dev flags 0x3 alarm_status_2) w1)
            λ rx_alarm _ w2.
              IfOk-then (λ buf. buf ≡ 0) WithoutTx
                (read_if bits dev flags 0xCC0 warning_status_1 w2) _
                (not_read 0xCC0 warning_status_1 no_warning w2)
                λ tx_warn e' w3.
                  IfOk-then (λ buf. Unit {0}) WithoutTx
                    (read_if bits dev flags 0xC warning_status_2 w3) _
                    (any (read_if bits dev flags 0xC warning_status_2) w3) λ rx_warn _ w4. (e, e')

  abbrev RxLowClear : ℕ → Type 0
  RxLowClear status = any_bit status 0xA ≡ false

  flags_low : (bufs : ℕ × ℕ × ℕ × ℕ) → WithoutTx bufs → RxLowClear (channel_flags bufs)
  unfolding channel_flags
  flags_low (tx_alarm, rx_alarm, tx_warn, rx_warn) (e, e') =
      rw (e, e') (first_flags_low (any_bit rx_warn 128) (any_bit rx_alarm 128))

  monitor-Always :
      (channel : ℕ) → Always RxLowClear (sdi_sfp_channel_monitor_status_get bits dev channel flags)
  unfolding sdi_sfp_channel_monitor_status_get selected if_alarms
  monitor-Always channel w =
      both_branches (λ (c : Io W ℕ). IfOk RxLowClear (c w)) (channel == no_channel) _
        (fail (errcode einval))
        (IfOk-then WithoutTx RxLowClear
          (selected bits dev (if_alarms bits dev (read_channel bits dev flags)) w)
          (λ bufs. pure (channel_flags bufs))
          (Always-with_lock WithoutTx (selection dev.selector) _ alarms w)
          λ bufs h w'. flags_low bufs h)
        tt
    where
      alarms : Always WithoutTx (if_alarms bits dev (read_channel bits dev flags))
      alarms w1 =
          IfOk-then (λ supported. Unit {0}) WithoutTx (sdi_is_alarm_flags_supported bits dev w1) _
            (any (sdi_is_alarm_flags_supported bits dev) w1)
            λ supported _ w2.
              both_branches (λ (c : Io W (ℕ × ℕ × ℕ × ℕ)). IfOk WithoutTx (c w2)) supported
                (read_channel bits dev flags) (fail (errcode eopnotsupp)) (read_channel-Always w2)
                tt

  -- Where no flag of the transmitter is asked for, a call that succeeds reports neither the alarm nor
  -- the warning of a received power that is too low, whatever the module shows.
  pub rx_low_unreported :
      (channel status : ℕ) (w w' : W)
      → sdi_sfp_channel_monitor_status_get bits dev channel flags w ≡ (ok status, w')
      → any_bit status 0xA ≡ false
  rx_low_unreported channel status w w' e = subst (IfOk RxLowClear) e (monitor-Always channel w)
