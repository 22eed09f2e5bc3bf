-- ===== src/Coap/Client/Keyed.antt =====
-- The message map of the CoAP client: every message stands under its own packet id.
use iotbroker_cloud_c_client.Base.{
  ℕ, ◌-◌, ◌≡◌, refl, sym, ap, ◌∙◌, subst, none, some, List, [], ◌∷◌, inl, inr, ltb, ◌==◌, ==_iff,
  Bool-cases, Outcome, ◌>>=◌, Bytes,
}
use iotbroker_cloud_c_client.Base.HashTable.{
  HashTable, MapPointer, null, live, destroyed, the_table,
}
use iotbroker_cloud_c_client.Base.Kept.{Kept, Kept-ok, Kept-fault, Kept->>=, Kept-step, Kept-if}
use iotbroker_cloud_c_client.Coap.Packets.{CoapMessage}
use iotbroker_cloud_c_client.Coap.Encode.{coap_encode_and_fire}
use iotbroker_cloud_c_client.Coap.Client.State.{CoapClient, CoapEntry}
use iotbroker_cloud_c_client.Coap.Client.Timers.{
  coap_fire, stop_coap_connect_timer, coap_stop_ping_timer, coap_stop_message_timer,
  coap_stop_all_timers, coap_add_message_in_map, coap_remove_message_from_map, coap_resend_old,
  coap_message_resend_round,
}

module _ (malloc : ℕ → Bytes) (h : HashTable CoapEntry) where
  open h use {Table, new, lookup, insert, remove, entries, lookup-new, lookup-insert, lookup-remove}

  abbrev pub IsKeyed : CoapClient Table → Type 0
  IsKeyed c =
      (t : Table) (k : ℕ) (e : CoapEntry)
      → c.messages_map ≡ live t
      → lookup k t ≡ some e
      → e.message.message_id ≡ k

  pub Kept-fire :
      (m : CoapMessage) (c : CoapClient Table) → IsKeyed c → Kept IsKeyed (coap_fire malloc h m c)
  unfolding coap_fire
  Kept-fire m c k = Kept-step (coap_encode_and_fire malloc m) _ λ bytes. Kept-ok _ k

  -- The table after an entry that has its own key.
  inserted-IsKeyed :
      (t : Table) (n : ℕ) (e : CoapEntry)
      → e.message.message_id ≡ n
      → ((k : ℕ) (e : CoapEntry) → lookup k t ≡ some e → e.message.message_id ≡ k)
      → (k : ℕ) (e' : CoapEntry) → lookup k (insert n e t) ≡ some e'
      → e'.message.message_id ≡ k
  inserted-IsKeyed t n e en keyed k e' found =
      let found' = rw lookup-insert at found in
      elim (Bool-cases (n == k)) [
        | inl same ↦
            let stored : some e ≡ some e' = rw same at found' in
            let it : e ≡ e' = cc in
            ap (λ (x : CoapEntry). x.message.message_id) (sym it) ∙ en ∙ (==_iff n k).0 same
        | inr other ↦ keyed k e' (rw other at found')
      ]

  removed-IsKeyed :
      (t : Table) (n : ℕ)
      → ((k : ℕ) (e : CoapEntry) → lookup k t ≡ some e → e.message.message_id ≡ k)
      → (k : ℕ) (e : CoapEntry) → lookup k (remove n t) ≡ some e
      → e.message.message_id ≡ k
  removed-IsKeyed t n keyed k e found =
      let found' = rw lookup-remove at found in
      elim (Bool-cases (n == k)) [
        | inl same ↦ let empty : none ≡ some e = rw same at found' in cc
        | inr other ↦ keyed k e (rw other at found')
      ]

  -- A call of the table.
  Kept-table :
      (m : MapPointer Table) (f : Table → Outcome (CoapClient Table))
      → ((t : Table) → m ≡ live t → Kept IsKeyed (f t))
      → Kept IsKeyed (the_table m >>= f)
  Kept-table null f g = Kept-fault
  Kept-table (live t) f g = g t refl
  Kept-table destroyed f g = Kept-fault

  -- A client with another table.
  pub new_table-IsKeyed :
      (c : CoapClient Table) (t : Table)
      → ((k : ℕ) (e : CoapEntry) → lookup k t ≡ some e → e.message.message_id ≡ k)
      → IsKeyed (record c { messages_map = live t })
  new_table-IsKeyed c t keyed t' k e same found =
      let it : t ≡ t' = cc in keyed k e (subst (λ u. lookup k u ≡ some e) (sym it) found)

  pub Kept-add :
      (now : ℕ) (m : CoapMessage) (c : CoapClient Table)
      → IsKeyed c
      → Kept IsKeyed (coap_add_message_in_map malloc h now m c)
  unfolding coap_add_message_in_map
  Kept-add now m c keyed = Kept-table c.messages_map _ λ t it. Kept-ok _ (
      new_table-IsKeyed c _
        (inserted-IsKeyed t m.message_id _ refl λ k e found. keyed t k e it found))

  pub Kept-remove :
      (n : ℕ) (c : CoapClient Table)
      → IsKeyed c
      → Kept IsKeyed (coap_remove_message_from_map malloc h n c)
  unfolding coap_remove_message_from_map
  Kept-remove n c keyed = Kept-table c.messages_map _ λ t it.
      Kept-ok _ (new_table-IsKeyed c _ (removed-IsKeyed t n λ k e found. keyed t k e it found))

  pub Kept-stop_all_timers :
      (c : CoapClient Table) → IsKeyed c → Kept IsKeyed (coap_stop_all_timers malloc h c)
  unfolding coap_stop_all_timers coap_stop_ping_timer coap_stop_message_timer
      stop_coap_connect_timer
  Kept-stop_all_timers c keyed =
      Kept->>= _ _ (Kept-table c.messages_map _ λ t it. Kept-ok _ λ t k e same found. cc)
        λ c k. Kept-ok _ k

  Kept-resend_old :
      (now : ℕ) (es : List (ℕ × CoapEntry)) (c : CoapClient Table)
      → IsKeyed c
      → Kept IsKeyed (coap_resend_old malloc h now es c)
  unfolding coap_resend_old
  Kept-resend_old now [] c k = Kept-ok c k
  Kept-resend_old now ((key, e) ∷ es) c k =
      Kept->>= _ _ (Kept-if (ltb 10 (now - e.time_stamp)) (Kept-fire e.message c k) (Kept-ok c k))
        λ c k. Kept-resend_old now es c k

  pub Kept-message_resend_round :
      (now : ℕ) (c : CoapClient Table)
      → IsKeyed c
      → Kept IsKeyed (coap_message_resend_round malloc h now c)
  unfolding coap_message_resend_round
  Kept-message_resend_round now c k =
      Kept-step (the_table c.messages_map) _ λ t. Kept-resend_old now (entries t) c k
