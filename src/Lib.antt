-- ===== src/Lib.antt =====
-- The clients of iotbroker.cloud-c-client, and the theorems that say what they do.
--
-- The program is a desktop client for IoT brokers. A user action calls a protocol client, which
-- builds a message, encodes it and hands the bytes to a transport; the transport hands what it reads
-- back to the client, which decodes it, answers it, and tells the window and the database. Messages
-- that wait for an answer stand in a map, which timer threads read in order to send them again.
--
-- Files, and the code that each models:
--   Base: what the modules share. Base/Partial has the result of code that may return early or end
--     the process (refused) or do what C leaves undefined (fault); Base/Memory has buffers with an
--     index; Base/HashTable is GLib's GHashTable as two records of calls and laws, with integer keys
--     and with texts, which the clients take as a parameter, and Base/Kept is about steps that keep
--     an invariant.
--   Helpers: src/helpers.c. Length is remaining_length and add_packet_length, Ints is add_int and
--     get_int_advanced, Utf8 is utf8_check.
--   Mqtt: src/mqtt/packets (Packets) and src/mqtt/parser.c: decode_remaining_length (Remaining),
--     get_length (Size), encode (Encode), decode (Decode). Mqtt/Wire writes the packets of MQTT down
--     without the encoder; Fire is encode_and_fire of src/mqtt/mqtt_client.c.
--   Mqtt/Client: the variables (State), src/mqtt/mqtt_timers.c (Timers), and the rest of
--     src/mqtt/mqtt_client.c: the send functions (Send), process_rx (Receive) and mqtt_data_received
--     (Stream). The theorems on it: Flow (a delivery), Subscription, Incoming (a PUBLISH of the
--     broker), Batch (several packets in one read), Resend, Closing, and Keyed, Replies, Calls and
--     Reach (an invariant of the message map over every sequence of calls).
--   Coap: src/coap/packets (Packets), coap_encode (Encode) and coap_decode (Decode) of
--     src/coap/coap_parser.c. Coap/Wire writes the packets of RFC 7252 down without the encoder.
--   Coap/Client: the variables (State), src/coap/coap_timers.c (Timers), and the rest of
--     src/coap/coap_client.c: the send functions (Send) and process_coap_rx (Receive). The theorems:
--     Delivery, Incoming, Subscription, Connection, and Keyed, Replies and Reach (an invariant of
--     the table over every sequence of calls).
--   MqttSn: src/mqttsn/packets (Packets) and src/mqttsn/sn_parser.c: the flags byte (Flags),
--     sn_get_length (Size), sn_encode with sn_encode_and_fire of src/mqttsn/mqtt_sn_client.c
--     (Encode) and sn_decode (Decode). MqttSn/Wire writes the packets that the client sends down
--     without the encoder, and Gateway those that a gateway sends; Sent is about the encoder.
--   MqttSn/Client: the variables (State), src/mqttsn/mqtt_sn_timers.c (Timers), and the rest of
--     src/mqttsn/mqtt_sn_client.c: the send functions (Send) and process_sn_rx (Receive). Libraries
--     is the record of what it calls: malloc and three tables. The theorems: Publication (a first
--     message on a topic, after Registration), Subscription, Incoming, Connection, Retries, Closing,
--     and Stopping, Sound, Topics, Replies, Calls and Reach (an invariant of the tables over every
--     sequence of calls).
--   Ws: the Base64 of src/ws/base64_parser.c. The theorems: RoundTrip.
--   Tests: the theorems at concrete inputs.
--
-- A function keeps the name of the C function; a case of a switch is a function of its own
-- (encode_publish, decode_suback, on_connack). Static variables are the fields of a record (Client,
-- CoapClient, SnClient), which the functions take and return. What a function does outside (bytes
-- sent, threads started, calls of the listener, the window and the database) is appended to the log
-- of that record. The block that malloc returns, with whatever it holds, and the table are
-- parameters. A read or a write outside a buffer, through a pointer that nothing has set, or of a
-- destroyed table is a fault, and so is pthread_cancel on a pthread_t that no pthread_create has
-- set: the record has which of them are set. exit is refused: there is no client after it.
--
-- Numbers are natural numbers with the wrap-around of the C types written out; a char is signed, and
-- what get_short returns is unsigned, as helpers.h declares it to its callers. Loops over a length
-- field run on a fuel of five, which the four bytes of the field never use up; utf8_check has one
-- round for each byte, packet_loop one for each byte that was read, option_loop one for each byte of
-- the packet and one more.
--
-- Not modelled: threads that interleave inside one call, the transports (src/net), the database
-- (src/dal), the windows (src/gui), the copies of map and dyad, the JSON of src/ws, and the AMQP
-- codec and client.
pub mod Base
pub mod Helpers
pub mod Mqtt
pub mod Coap
pub mod MqttSn
pub mod Ws
pub mod Tests
