-- ===== src/Mqtt/Client/Resend.antt =====
-- The round of the resend thread.
use iotbroker_cloud_c_client.Base.{
  ℕ, ◌+◌, ◌-◌, ◌≡◌, ap, ◌∙◌, arith, true, false, Bool-cases, inl, inr, List, [], ◌∷◌, if◌then◌else◌,
  ltb, ok, ◌>>=◌, Bytes, All, append_assoc, append-nil,
}
use iotbroker_cloud_c_client.Base.HashTable.{HashTable}
use iotbroker_cloud_c_client.Mqtt.Fire.{encode_and_fire}
use iotbroker_cloud_c_client.Mqtt.Client.State.{
  Client, Entry, Effect, sent, live, the_table, record_effects,
}
use iotbroker_cloud_c_client.Mqtt.Client.Timers.{resend_old, message_resend_round}
use iotbroker_cloud_c_client.Mqtt.Client.Flow.{fire-eq}

-- The packets of the entries that have waited for more than ten seconds.
abbrev pub resent : ℕ → (Entry → Bytes) → List (ℕ × Entry) → List Effect
resent now packet [] = []
resent now packet ((key, e) ∷ es) =
    let more = resent now packet es in
    if ltb (e.time_stamp + 10) now then sent (packet e) ∷ more else more

module _ (malloc : ℕ → Bytes) (h : HashTable Entry) where
  open h use {Table, entries}

  resend_old-eq :
      (now : ℕ) (packet : Entry → Bytes) (es : List (ℕ × Entry)) (c : Client Table)
      → All (λ (p : ℕ × Entry). encode_and_fire malloc p.1.message ≡ ok (packet p.1)) es
      → resend_old malloc h now es c ≡ ok (record_effects (resent now packet es) c)
  unfolding resend_old
  resend_old-eq now packet [] c he = rw append-nil
  resend_old-eq now packet ((key, e) ∷ es) c he = elim (Bool-cases (ltb (e.time_stamp + 10) now)) [
    | inl old ↦
        let same : ltb 10 (now - e.time_stamp) ≡ true = ground arith in
        rw (old, same, fire-eq malloc h e.message c he.0)
          (resend_old-eq now packet es (record_effects (sent (packet e) ∷ []) c) he.1
            ∙ simp append_assoc)
    | inr young ↦
        let same : ltb 10 (now - e.time_stamp) ≡ false = ground arith in
        rw (young, same) (resend_old-eq now packet es c he.1)
  ]

  -- A round of the resend thread sends again exactly the messages that have waited for more than ten
  -- seconds, in the order of the table, each as one packet, and changes nothing else: the map, its time
  -- stamps and the packet ids stay. The condition is that every message of the map can be encoded.
  pub message_resend_round-resent :
      (now : ℕ) (packet : Entry → Bytes) (t : Table) (c : Client Table)
      → c.messages_map ≡ live t
      → All (λ (p : ℕ × Entry). encode_and_fire malloc p.1.message ≡ ok (packet p.1)) (entries t)
      → message_resend_round malloc h now c ≡ ok (record_effects (resent now packet (entries t)) c)
  unfolding message_resend_round
  message_resend_round-resent now packet t c em he =
      ap (λ m. the_table m >>= λ t. resend_old malloc h now (entries t) c) em
      ∙ resend_old-eq now packet (entries t) c he
