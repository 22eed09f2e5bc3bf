-- ===== src/Mqtt/Client/Keyed.antt =====
-- The message map of the client: every message stands under its own packet id, whatever the user and
-- the broker do.
use iotbroker_cloud_c_client.Base.{
  ℕ, ◌≡◌, refl, subst, Bool, true, false, Option, none, some, Outcome-cases, inl, inr,
  if◌then◌else◌, deref, require, ◌==◌, ==_iff, Bool-cases, Outcome, ok, refused, fault, ◌>>=◌,
  Bytes,
}
use iotbroker_cloud_c_client.Base.HashTable.{HashTable}
use iotbroker_cloud_c_client.Mqtt.Packets.{
  Message, Publish, publish, subscribe, unsubscribe, connect,
}
use iotbroker_cloud_c_client.Mqtt.Fire.{encode_and_fire}
use iotbroker_cloud_c_client.Mqtt.Client.State.{
  Client, Entry, Timer, pinger, messager, MapPointer, null, live, destroyed, the_table, destroy,
}
use iotbroker_cloud_c_client.Mqtt.Client.Timers.{
  cancel, fire, map_key, start_connect_timer, stop_ping_timer, stop_message_timer, stop_all_timers,
  add_message_in_map, get_message_from_map, remove_message_from_map,
}

-- The packet id of the three messages that wait for an answer of their own, and 0 for CONNECT; no other
-- message is kept.
abbrev pub IsKeyOf : ℕ → Message → Type 0
IsKeyOf k (publish p) = p.packet_id ≡ some k
IsKeyOf k (subscribe s) = s.packet_id ≡ k
IsKeyOf k (unsubscribe u) = u.packet_id ≡ k
IsKeyOf k (connect c) = k ≡ 0
IsKeyOf k _ = ⊥

pub IsKeyOf-publish : (p : Publish) (n : ℕ) → map_key (publish p) ≡ ok n → IsKeyOf n (publish p)
unfolding map_key
IsKeyOf-publish p n e =
    elim p.packet_id as (λ id. deref id ≡ ok n → id ≡ some n) [ none ↦ λ e. cc | some id ↦ λ e. cc ]
      e

module _ (malloc : ℕ → Bytes) (h : HashTable Entry) where
  open h use {Table, new, lookup, insert, remove, lookup-new, lookup-insert, lookup-remove}

  abbrev pub IsKeyed : MapPointer Table → Type 0
  IsKeyed (live t) = (k : ℕ) (e : Entry) → lookup k t ≡ some e → IsKeyOf k e.message
  IsKeyed null = Unit
  IsKeyed destroyed = Unit

  -- A step that ends well ends in a client whose map is keyed.
  pub data Kept (o : Outcome (Client Table)) : Type 0 where
    kept : ((c : Client Table) → o ≡ ok c → IsKeyed c.messages_map) → Kept o

  pub Kept-ok : (c : Client Table) → IsKeyed c.messages_map → Kept (ok c)
  Kept-ok c k = kept λ c' e. let same : c ≡ c' = cc in subst (λ x. IsKeyed x.messages_map) same k

  pub Kept-refused : Kept refused
  Kept-refused = kept λ c e. cc

  pub Kept-fault : Kept fault
  Kept-fault = kept λ c e. cc

  pub Kept->>= :
      (o : Outcome (Client Table)) (f : Client Table → Outcome (Client Table))
      → Kept o
      → ((c : Client Table) → IsKeyed c.messages_map → Kept (f c))
      → Kept (o >>= f)
  Kept->>= (ok c) f (kept g) k = k c (g c refl)
  Kept->>= refused f g k = Kept-refused
  Kept->>= fault f g k = Kept-fault

  -- A step in front that does not touch the client.
  pub Kept-step :
      {A : Type 0} (o : Outcome A) (f : A → Outcome (Client Table))
      → ((a : A) → Kept (f a))
      → Kept (o >>= f)
  Kept-step (ok a) f k = k a
  Kept-step refused f k = Kept-refused
  Kept-step fault f k = Kept-fault

  pub Kept-if :
      (b : Bool) {x y : Outcome (Client Table)} → Kept x → Kept y → Kept (if b then x else y)
  Kept-if true kx ky = kx
  Kept-if false kx ky = ky

  pub Kept-fire :
      (m : Message) (c : Client Table) → IsKeyed c.messages_map → Kept (fire malloc h m c)
  unfolding fire
  Kept-fire m c k = Kept-step (encode_and_fire malloc m) _ λ bytes. Kept-ok _ k

  IsKeyed-insert :
      (t : Table) (n : ℕ) (entry : Entry)
      → IsKeyOf n entry.message
      → IsKeyed (live t)
      → IsKeyed (live (insert n entry t))
  IsKeyed-insert t n entry en keyed k e found =
      let found' = rw lookup-insert at found in
      elim (Bool-cases (n == k)) [
        | inl same ↦
            let stored : some entry ≡ some e = rw same at found' in
            let it : entry ≡ e = cc in
            subst (λ (x : Entry). IsKeyOf k x.message) it
              (subst (λ j. IsKeyOf j entry.message) ((==_iff n k).0 same) en)
        | inr other ↦ keyed k e (rw other at found')
      ]

  IsKeyed-remove : (t : Table) (n : ℕ) → IsKeyed (live t) → IsKeyed (live (remove n t))
  IsKeyed-remove t n keyed k e found =
      let found' = rw lookup-remove at found in
      elim (Bool-cases (n == k)) [
        | inl same ↦ let empty : none ≡ some e = rw same at found' in cc
        | inr other ↦ keyed k e (rw other at found')
      ]

  Kept-table :
      (m : MapPointer Table) (f : Table → Outcome (Client Table))
      → IsKeyed m
      → ((t : Table) → IsKeyed (live t) → Kept (f t))
      → Kept (the_table m >>= f)
  Kept-table null f k g = Kept-fault
  Kept-table (live t) f k g = g t k
  Kept-table destroyed f k g = Kept-fault

  pub Kept-remove :
      (n : ℕ) (c : Client Table)
      → IsKeyed c.messages_map
      → Kept (remove_message_from_map malloc h n c)
  unfolding remove_message_from_map
  Kept-remove n c k = Kept-table c.messages_map _ k λ t kt. Kept-ok _ (IsKeyed-remove t n kt)

  Kept-found :
      (f : Option Entry → Outcome (Client Table)) (o : Option Entry)
      → Kept (f none)
      → ((e : Entry) → Kept (f (some e)))
      → Kept (f o)
  Kept-found f none kn ks = kn
  Kept-found f (some e) kn ks = ks e

  -- A handler that looks its packet id up.
  pub Kept-get :
      (n : ℕ) (c : Client Table) (f : Option Entry → Outcome (Client Table))
      → Kept (f none)
      → ((e : Entry) → Kept (f (some e)))
      → Kept (get_message_from_map malloc h n c >>= f)
  Kept-get n c f kn ks = Kept-step (get_message_from_map malloc h n c) f λ o. Kept-found f o kn ks

  pub Kept-add :
      (now : ℕ) (m : Message) (c : Client Table)
      → ((n : ℕ) → map_key m ≡ ok n → IsKeyOf n m)
      → IsKeyed c.messages_map
      → Kept (add_message_in_map malloc h now m c)
  unfolding add_message_in_map
  Kept-add now m c key k = elim (Outcome-cases (map_key m)) [
    | inl (n, e) ↦
        rw e (Kept-table c.messages_map _ k λ t kt. Kept-ok _ (IsKeyed-insert t n _ (key n e) kt))
    | inr (inl e) ↦ rw e Kept-refused
    | inr (inr e) ↦ rw e Kept-fault
  ]

  pub IsKeyed-start_connect_timer :
      (c : Client Table) → IsKeyed (start_connect_timer malloc h c).messages_map
  unfolding start_connect_timer
  IsKeyed-start_connect_timer c k e found = let empty : none ≡ some e = rw lookup-new at found in cc

  Kept-destroy :
      (m : MapPointer Table) (f : MapPointer Table → Outcome (Client Table))
      → ((m' : MapPointer Table) → IsKeyed m' → Kept (f m'))
      → Kept (destroy m >>= f)
  Kept-destroy null f g = g null tt
  Kept-destroy (live t) f g = g destroyed tt
  Kept-destroy destroyed f g = Kept-fault

  pub Kept-cancel :
      (thread : Timer) (c : Client Table) → IsKeyed c.messages_map → Kept (cancel malloc h thread c)
  unfolding cancel
  Kept-cancel thread c k = Kept-step (require (c.threads thread)) _ λ u. Kept-ok _ k

  pub Kept-stop_all_timers : (c : Client Table) → Kept (stop_all_timers malloc h c)
  unfolding stop_all_timers stop_ping_timer stop_message_timer
  Kept-stop_all_timers c =
      Kept->>= (stop_ping_timer malloc h c) _
        (Kept-destroy c.messages_map _ λ m k. Kept-cancel pinger _ k)
        λ c' k. Kept-cancel messager _ k
