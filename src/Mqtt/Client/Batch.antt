-- ===== src/Mqtt/Client/Batch.antt =====
-- Several packets in what one read of the socket brought.
use iotbroker_cloud_c_client.Base.{
  ℕ, zero, suc, ◌+◌, ◌≤◌, ◌<◌, ◌≡◌, refl, ◌∙◌, arith, true, false, some, List, [], ◌∷◌, ◌++◌,
  if◌then◌else◌, ltb, Outcome, ok, ◌>>=◌, Bytes, length, length-append, append_assoc, drop,
  drop-past, byte_at, byte_at-eq, slice-eq, drop-next,
}
use iotbroker_cloud_c_client.Base.HashTable.{HashTable}
use iotbroker_cloud_c_client.Mqtt.Remaining.{details, decode_remaining_length}
use iotbroker_cloud_c_client.Mqtt.Client.State.{Client, Entry}
use iotbroker_cloud_c_client.Mqtt.Client.Receive.{process_rx}
use iotbroker_cloud_c_client.Mqtt.Client.Stream.{next_length, packet_loop, mqtt_data_received}

-- Packets whose length field is one byte, with their first byte.
abbrev pub short_frame : ℕ × Bytes → Bytes
short_frame (first, body) = first ∷ length body ∷ body

abbrev pub joined : List (ℕ × Bytes) → Bytes
joined [] = []
joined (p ∷ ps) = short_frame p ++ joined ps

abbrev pub AllShort : List (ℕ × Bytes) → Type 0
AllShort [] = Unit
AllShort (p ∷ ps) = (length p.1 < 128) × AllShort ps

first_length :
    (p : ℕ × Bytes) (more rest : Bytes)
    → length p.1 < 128
    → decode_remaining_length ((short_frame p ++ more) ++ rest)
      ≡ ok (details 1 (length (short_frame p)))
unfolding decode_remaining_length byte_at
first_length p more rest h = ground arith

count-joined : (ps : List (ℕ × Bytes)) → length ps ≤ length (joined ps)
count-joined [] = omega arith
count-joined (p ∷ ps) = omega (arith, count-joined ps, length-append {0} p.1 (joined ps))

module _ (malloc : ℕ → Bytes) (h : HashTable Entry) where
  open h use {Table}

  -- The packets one after the other, up to the first that does not end well.
  abbrev pub process_all : List (ℕ × Bytes) → Client Table → Outcome (Client Table)
  process_all [] c = ok c
  process_all (p ∷ ps) c = do c ← process_rx malloc h (short_frame p) c; process_all ps c

  -- One round of the loop, on a packet with something behind it.
  packet_loop-step :
      (fuel : ℕ) (buf : Bytes) (n i b : ℕ) (p : ℕ × Bytes) (behind : Bytes) (c : Client Table)
      → drop i buf ≡ short_frame p ++ behind
      → byte_at buf (i + length (short_frame p) + 1) ≡ ok b
      → packet_loop malloc h (suc fuel) buf n i (some (length (short_frame p))) c ≡ (
          process_rx malloc h (short_frame p) c >>= λ c.
          if ltb (i + length (short_frame p)) n
          then packet_loop malloc h fuel buf n (i + length (short_frame p)) (next_length b) c
          else ok c)
  unfolding packet_loop
  packet_loop-step fuel buf n i b p behind c e eb =
      rw (slice-eq buf i (short_frame p) behind (length (short_frame p)) refl e, eb)

  packet_loop-joined :
      (fuel : ℕ) (buf : Bytes) (n i x y : ℕ) (p : ℕ × Bytes) (ps : List (ℕ × Bytes)) (rest : Bytes)
      (c : Client Table)
      → length ps < fuel
      → AllShort (p ∷ ps)
      → drop i buf ≡ joined (p ∷ ps) ++ x ∷ y ∷ rest
      → n ≡ i + length (joined (p ∷ ps))
      → packet_loop malloc h fuel buf n i (some (length (short_frame p))) c ≡ process_all (p ∷ ps) c
  packet_loop-joined zero buf n i x y p ps rest c hf hs e en = absurd (omega arith)
  packet_loop-joined (suc fuel) buf n i x y p [] rest c hf hs e en =
      let behind : Bytes = x ∷ y ∷ rest in
      let here : drop i buf ≡ short_frame p ++ behind = e ∙ simp append_assoc in
      let after = drop-past buf i (short_frame p) behind _ refl here in
      let last : ltb (i + length (short_frame p)) n ≡ false =
        ground (arith, length-append {0} p.1 []) in
      packet_loop-step fuel buf n i y p behind c here (byte_at-eq buf _ (drop-next buf _ after))
      ∙ rw last
  packet_loop-joined (suc fuel) buf n i x y p (q ∷ qs) rest c hf hs e en =
      let behind : Bytes = joined (q ∷ qs) ++ x ∷ y ∷ rest in
      let here : drop i buf ≡ short_frame p ++ behind = e ∙ simp append_assoc in
      let after = drop-past buf i (short_frame p) behind _ refl here in
      let more : ltb (i + length (short_frame p)) n ≡ true =
        ground (arith, length-append {0} p.1 (joined (q ∷ qs))) in
      let next : next_length (length q.1) ≡ some (length (short_frame q)) = ground arith in
      let size : n ≡ i + length (short_frame p) + length (joined (q ∷ qs)) =
        omega (arith, en, length-append {0} p.1 (joined (q ∷ qs))) in
      packet_loop-step fuel buf n i (length q.1) p behind c here
        (byte_at-eq buf _ (drop-next buf _ after))
      ∙ rw (more, next)
          (simp (λ (c' : Client Table).
            packet_loop-joined fuel buf n (i + length (short_frame p)) x y q qs rest c'
              (omega arith) hs.1 after size))

  -- What one read brought is handled packet by packet, in the order in which it came, each in a
  -- buffer of its own, up to the first that ends the process or does what is undefined. The
  -- conditions are that there are two or more packets, that each has a length field of one byte, and
  -- that the receive buffer has two more bytes behind what was read.
  pub mqtt_data_received-process_all :
      (p q : ℕ × Bytes) (ps : List (ℕ × Bytes)) (x y : ℕ) (rest : Bytes) (c : Client Table)
      → AllShort (p ∷ q ∷ ps)
      → mqtt_data_received malloc h
          (joined (p ∷ q ∷ ps) ++ x ∷ y ∷ rest)
          (length (joined (p ∷ q ∷ ps)))
          c
        ≡ process_all (p ∷ q ∷ ps) c
  unfolding mqtt_data_received
  mqtt_data_received-process_all p q ps x y rest c hs =
      let n = length (joined (p ∷ q ∷ ps)) in
      let buf = joined (p ∷ q ∷ ps) ++ x ∷ y ∷ rest in
      let more : ltb (length (short_frame p)) n ≡ true =
        ground (arith, length-append {0} p.1 (joined (q ∷ ps))) in
      rw (first_length p (joined (q ∷ ps)) (x ∷ y ∷ rest) hs.0, more)
        (packet_loop-joined n buf n 0 x y p (q ∷ ps) rest c
          (omega (arith, count-joined (p ∷ q ∷ ps))) hs refl (omega arith))
