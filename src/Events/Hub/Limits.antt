-- ===== src/Events/Hub/Limits.antt =====
-- internal/remote/events/hub.go: the limits of the options hold for the life of a hub.
use mohuddle.Base.{
  arith, ℕ, ◌≡◌, refl, sym, subst, inl, inr, String, Option, Result, ok, err, ℤ, pos, negsuc,
  first_step, ok_inj, nat_eq,
}
use mohuddle.Events.Cursor.{Cursor, Wire}
use mohuddle.Events.Hub.{
  Hub, Options, HubError, new, limit, boot, empty_hub, publish, publish_result, publish_copied,
  publish_record, copy_event, advance, fan_out, retain, rotate, invalidate, subscribe,
  subscribe_open, register, cancel, close,
}
use mohuddle.Events.Hub.Methods.{invalidate_cases}

-- The options give these limits.
abbrev pub HasLimits : Options → ℕ → ℕ → Type 0
HasLimits o records bytes =
    (limit o.max_records 4096 ≡ ok records) × (limit o.max_bytes 8_388_608 ≡ ok bytes)

module _ {E : Type 0} where
  abbrev pub SameLimits : Hub E → Hub E → Type 0
  SameLimits h k = (k.max_records ≡ h.max_records) × (k.max_bytes ≡ h.max_bytes)

  pub new-HasLimits :
      (o : Options) (drawn : Option String) (h : Hub E)
      → new o drawn ≡ ok h
      → HasLimits o h.max_records h.max_bytes
  unfolding new empty_hub
  new-HasLimits o drawn h e =
      let (boot_id, e1, _) = first_step (boot o.boot_id drawn) _ e in
      let (records, e2, r) = first_step (limit o.max_records 4096) _ e1 in
      let (bytes, e3, b) = first_step (limit o.max_bytes 8_388_608) _ e2 in
      subst (λ h. HasLimits o h.max_records h.max_bytes) (ok_inj e3) (r, b)

  module _ (w : Wire E) (h : Hub E) where
    pub publish-SameLimits : (e : E) → SameLimits h (publish w h e).0
    unfolding publish publish_result publish_copied publish_record fan_out retain advance
    publish-SameLimits e = of_copy (copy_event w e)
      where
        of_copy : (c : Result HubError E) → SameLimits h (publish_result w h c).0
        of_copy (err x) = (refl, refl)
        of_copy (ok c) = ground arith

    pub invalidate-SameLimits :
        (reason : String) (drawn : Option String) → SameLimits h (invalidate w h reason drawn).0
    unfolding rotate
    invalidate-SameLimits reason drawn = elim (invalidate_cases w h reason drawn) [
      | inl same ↦ subst (SameLimits h) (sym same) (refl, refl)
      | inr (boot, rotated) ↦ subst (SameLimits h) (sym rotated) (refl, refl)
    ]

    pub subscribe-SameLimits :
        (after : Cursor) (capacity : ℤ) → SameLimits h (subscribe w h after capacity).0
    unfolding subscribe subscribe_open register
    subscribe-SameLimits after (negsuc n) = (refl, refl)
    subscribe-SameLimits after (pos n) = ground arith

    pub cancel-SameLimits : (id : ℕ) → SameLimits h (cancel h id).0
    unfolding cancel
    cancel-SameLimits id = (refl, refl)

    pub close-SameLimits : SameLimits h (close h).0
    unfolding close
    close-SameLimits = ground arith
