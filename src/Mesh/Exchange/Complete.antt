-- ===== src/Mesh/Exchange/Complete.antt =====
-- The two stages of the exchange on connecting, from_app/mod.rs, as the phone gets them.
use meshtastenstein_rs.Base.{
  ℕ, ◌-◌, ◌≡◌, ◌≤◌, ◌<◌, refl, sym, ◌∙◌, List, [], ◌∷◌, ◌++◌, append_assoc, append_nil, length,
  ◌==◌, false, arith,
}
use meshtastenstein_rs.Device.{next_from_radio_id}
use meshtastenstein_rs.Proto.{FromRadio, FromRadioMessage, Wire}
use meshtastenstein_rs.Mesh.{MeshCtx}
use meshtastenstein_rs.Mesh.Send.{encode_from_radio, push_from_radio, try_send}
use meshtastenstein_rs.Mesh.Exchange.{push_all}

-- the messages under consecutive ids
unfoldable pub numbered : {P M : Type 0} → Wire P M → ℕ → List (FromRadio P) → List FromRadioMessage
numbered {P} {M} w id [] = []
numbered {P} {M} w id (m ∷ ms) =
    record { bytes = encode_from_radio w id m; id = id } ∷ numbered w (next_from_radio_id id).0 ms

module _ {P M F : Type 0} (w : Wire P M) where
  push_from_radio-free :
      (m : FromRadio P) (ctx : MeshCtx P M F)
      → 0 < ctx.ble_free
      → ((push_from_radio w m ctx).ble_free ≡ ctx.ble_free - 1)
        × ((push_from_radio w m ctx).from_radio_id ≡ (next_from_radio_id ctx.from_radio_id).0)
        × ((push_from_radio w m ctx).to_phone
            ≡ ctx.to_phone
              ++ (record { bytes = encode_from_radio w ctx.from_radio_id m; id = ctx.from_radio_id }
                  ∷ []))
  unfolding push_from_radio try_send next_from_radio_id
  push_from_radio-free m ctx room =
      let free : (ctx.ble_free == 0) ≡ false = ground (arith, room) in rw (free) (refl, refl, refl)

  pub push_all-to_phone :
      (ms : List (FromRadio P)) (ctx : MeshCtx P M F)
      → length ms ≤ ctx.ble_free
      → (push_all w ms ctx).to_phone ≡ ctx.to_phone ++ numbered w ctx.from_radio_id ms
  unfolding push_all numbered
  push_all-to_phone [] ctx room = sym (append_nil ctx.to_phone)
  push_all-to_phone (m ∷ ms) ctx room =
      let (free, next, told) = push_from_radio-free m ctx (omega (arith, room)) in
      let rest = push_all-to_phone ms (push_from_radio w m ctx) (omega (arith, room, free)) in
      rest ∙ rw (told, next) (append_assoc ctx.to_phone _ _)
