-- ===== src/Coap/Client/Connection.antt =====
-- The start of a connection: a ping, and the first packet that comes in, or none.
use iotbroker_cloud_c_client.Base.{
  ℕ, ◌<◌, ◌≡◌, refl, ap, arith, true, false, none, [], ◌∷◌, ◌++◌, ◌==◌, ok, Bytes, length,
  append_assoc,
}
use iotbroker_cloud_c_client.Base.HashTable.{HashTable, live}
use iotbroker_cloud_c_client.Coap.Decode.{coap_decode}
use iotbroker_cloud_c_client.Coap.Wire.{coap_wire}
use iotbroker_cloud_c_client.Coap.Stores.{IsSendable, coap_encode_and_fire-eq}
use iotbroker_cloud_c_client.Coap.Client.State.{
  CoapClient, CoapEntry, sent, timer_started, timer_stopped, connecter, pinger, messager,
  connection_successful, connection_unsuccessful, connection_closed,
}
use iotbroker_cloud_c_client.Coap.Client.Timers.{
  coap_fire, start_coap_connect_timer, stop_coap_connect_timer, start_coap_ping_timer,
  coap_start_message_timer, coap_get_message_from_map,
}
use iotbroker_cloud_c_client.Coap.Client.Send.{
  coap_send_ping, coap_connect, fin_coap_client, coap_connect_task,
}
use iotbroker_cloud_c_client.Coap.Client.Receive.{
  open_connection, handle_coap_decoded, process_coap_rx,
}

abbrev pub ping_wire : Bytes → Bytes
ping_wire client_id = coap_wire 0 3 0 (48 ∷ []) ((2050, client_id) ∷ []) []

module _ (malloc : ℕ → Bytes) (h : HashTable CoapEntry) where
  open h use {Table, new, lookup-new}

  abbrev connecting : CoapClient Table → CoapClient Table
  connecting c = record c {
    init_connect = true;
    log = c.log ++ (sent (ping_wire c.account.client_id) ∷ timer_started connecter ∷ []);
  }

  coap_connect-eq :
      (c : CoapClient Table)
      → ((l : ℕ) → length (malloc l) ≡ l)
      → 0 < length c.account.client_id
      → IsSendable 0 3 0 (48 ∷ []) ((2050, c.account.client_id) ∷ []) []
      → coap_connect malloc h c ≡ ok (connecting c)
  unfolding coap_connect coap_send_ping coap_fire start_coap_connect_timer
  coap_connect-eq c fresh hc s =
      let filled : (length c.account.client_id == 0) ≡ false = ground arith in
      let e =
        coap_encode_and_fire-eq 0 3 0 (48 ∷ []) ((2050, c.account.client_id) ∷ []) [] s malloc
          fresh in
      rw (rw filled at e) (simp append_assoc)

  -- A connection starts with one ping. If a packet comes in, any, before it is handled the window
  -- is told of a connection, the pings start with the `delay_in_seconds` of the client, the table is made,
  -- with nothing in it, and the connect timer finds nothing to do. If none comes in, the connect timer
  -- closes the connection and tells the window that it failed, once. The conditions: malloc returns
  -- blocks of the size that is asked for, and the client id is not empty and has less than 141 bytes.
  pub coap_connect-coap_connect_task :
      (buf : Bytes) (l k : ℕ) (c : CoapClient Table)
      → ((n : ℕ) → length (malloc n) ≡ n)
      → 0 < length c.account.client_id
      → IsSendable 0 3 0 (48 ∷ []) ((2050, c.account.client_id) ∷ []) []
      → (c₁ c₂ : CoapClient Table) × (coap_connect malloc h c ≡ ok c₁)
        × (process_coap_rx malloc h buf l c₁ ≡ handle_coap_decoded malloc h (coap_decode buf l) c₂)
        × (c₂.log
            ≡ c.log
              ++ (sent (ping_wire c.account.client_id)
                  ∷ timer_started connecter
                  ∷ timer_stopped connecter
                  ∷ connection_successful
                  ∷ timer_started pinger
                  ∷ timer_started messager
                  ∷ []))
        × (c₂.ping_delay ≡ c.delay_in_seconds)
        × (coap_get_message_from_map malloc h k c₂ ≡ ok none)
        × (coap_connect_task malloc h c₂ ≡ c₂)
        × ((coap_connect_task malloc h c₁).log
            ≡ c.log
              ++ (sent (ping_wire c.account.client_id)
                  ∷ timer_started connecter
                  ∷ connection_closed
                  ∷ connection_unsuccessful
                  ∷ []))
        × (coap_connect_task malloc h (coap_connect_task malloc h c₁)
            ≡ coap_connect_task malloc h c₁)
  unfolding process_coap_rx open_connection stop_coap_connect_timer start_coap_ping_timer
      coap_start_message_timer coap_get_message_from_map coap_connect_task fin_coap_client
  coap_connect-coap_connect_task buf l k c fresh hc s =
      let c₁ = connecting c in
      let c₂ : CoapClient Table = record c₁ {
        init_connect = false;
        ping_delay = c.delay_in_seconds;
        messages_map = live new;
        log =
            c₁.log
            ++ (timer_stopped connecter
                ∷ connection_successful
                ∷ timer_started pinger
                ∷ timer_started messager
                ∷ []);
      } in
      let opened : open_connection malloc h c₁ ≡ c₂ = simp append_assoc in
      (
        c₁,
        c₂,
        coap_connect-eq c fresh hc s,
        ap (handle_coap_decoded malloc h (coap_decode buf l)) opened,
        simp append_assoc,
        refl,
        ap ok (lookup-new k),
        refl,
        simp append_assoc,
        refl,
      )
