-- ===== src/Lib.antt =====
-- The ZeSense CoAP streaming server: a model of its threads and buffers, and what holds of them.
--
-- The program streams the samples of the sensors of an Android device to CoAP clients. Two threads
-- work on two buffers. The CoAP server thread (ze_coap_server_core.c) reads the network through
-- libcoap; the handlers of the resources (ze_coap_resources.c) put requests into the request buffer
-- (ze_sm_reqbuf.c), each with a ticket: the address of a registration, or the id of an asynchronous
-- request. The Streaming Manager thread (ze_streaming_manager.c) takes the requests, starts and
-- stops streams on its sensors, and turns samples into packets, which it puts with their tickets
-- into the response buffer (ze_sm_resbuf.c). The server thread sends them, and releases a ticket
-- when the manager gives it up. Events of sensors that report changes only come from carrier
-- threads (ze_carrier.c) through a third queue (ze_carriers_queue.c). A root thread
-- (ze_coap_server_root.c) makes all this, waits for the exit, and takes it down.
--
-- Prelude passes on the names of the libraries; Prelude.Result is code that may run into undefined
-- behaviour of C (a NULL pointer, a division by zero, an index out of bounds, a dangling pointer) or
-- end the process, and the predicate that it does not and that its result has a property.
-- Prelude.Utlist is the linked list macros of utlist.h by their documented behaviour.
--
-- Ring           the slot array of both buffers; Ring.Contents its items in order
-- ReqBuf, ResBuf the operations of ze_sm_reqbuf.c and ze_sm_resbuf.c. A body under its mutex is one
--                step; what happens while a wait has released the mutex is an argument. Their Fifo
--                modules run any schedule of puts and gets
-- Carriers       ze_carriers_queue.c
-- Event, Encode  ASensorEvent, and encode of ze_streaming_manager.c with ze_coap_payload.h;
--                Encode.Reader is a receiver of its payloads
-- Manager        the state of ze_streaming_manager.c and .h. Manager.Sensors: android_sensor_activate,
--                android_sensor_changef, android_sensor_turnoff. Manager.Streams: the sm_ functions.
--                Manager.Helpers: put_response_helper and get_request_helper. Manager.Requests: the
--                branches of the thread loop on a request. Manager.Dispatch: its branches on an
--                event. Manager.Loop: the rounds over the two event queues. Manager.Prepare and
--                Manager.Stats: the start of the thread, and its statistics at the end, which
--                Manager.Stats.Printed writes to the log file. Manager.Thread: the loop of its turns
--                on all sensors and both buffers. Manager.Runs: any sequence of requests and events
--                on one sensor.
--                Manager.Invariant is what holds of a sensor between two of them, and
--                Manager.Ledger counts tickets
-- Double         the quotient of two numbers in the arithmetic of double
-- Carrier        the thread of ze_carrier.c, on what it finds in its rounds. Carrier.Period is its
--                sleep, and get_ntp of ze_timing.c
-- Resources      ze_coap_resources.c, with libcoap as a record of functions
-- Server         the branches of ze_coap_server_core.c on a response, and form_sr_payload.
--                Server.Increment: its timestamp, for the time since the last sample.
--                Server.Loop: the service loop on the response buffer, and the retransmissions.
--                Server.Thread: the thread from its start to its end, in passes.
--                Server.Socket: test_socket_send and s_strscpy. Server.Stats: the statistics that
--                the thread writes at its end. Server.State has what the other modules share
-- LogFile        logstr and FWRITE of ze_coap_server_root.h
-- Root           ze_server_root, get_coap_context and open_test_socket of ze_coap_server_root.c, as
--                built with COAP_SERVER; Root.Watch is an onlooker who knows what is owned
-- Rtp            ze_rtp_server_core.c, the server that the build leaves out, with what it takes of
--                libzertp as the records Zertp and Layout. Rtp.Single is its arithmetic of float,
--                Rtp.Datagrams the reading of its socket, Rtp.Thread its loops, Rtp.Overrun where
--                it writes the samples
-- System         a run of the Streaming Manager on one sensor and the service of its responses;
--                System.Buffered: with the response buffer and the passes of the server between
-- Tests          concrete surroundings, and the theorems applied to them
--
-- A sensor is served by itself: no function of the Streaming Manager touches two of them. Numbers
-- are natural; a negative int is its 32-bit pattern, and an int that wraps is taken modulo 2 ^ 32.
-- Floats are their bit patterns, since the program only copies and prints them: what sprintf prints
-- of them, of an int, and of the average of the statistics, is a parameter, with the hypothesis
-- that it fits its space. Android, the GPS manager, threads, memory, random numbers and the clock
-- are the record Platform of what they answer, or Host for the root thread. The doubles of the carrier's period and of the timestamp of a report are no such
-- parameters: a quotient is rounded to 53 bits as IEEE 754 says. It is found by doubling, 84 times
-- at most, which is enough for the inverse of a positive int and for 10^9 times that, and for the
-- ratio of the RTP clock and its products with a positive int. A float of the RTP server is rounded
-- to 24 bits, with at most 64 steps for a number of 64 bits.
-- Loops go over lists or over a number of rounds, and need no fuel but for the retransmissions:
-- there the fuel is more than the sendings that libcoap has left for its messages, and a pass of
-- the server with less is the fault out_of_fuel. The retry loop of put_response_helper goes over
-- the list of its rounds, and the fault is the same where none of them ends it. A thread that waits
-- for another is given the list of what it finds in its rounds.
--
-- A registration of libcoap has a reference counter: a checkout, which a start of a stream and a
-- notification that is to be confirmed make, moves it up, and a release moves it down, and the last
-- one destroys the registration, so that a ticket that is used later is a dangling pointer.
--
-- Not modelled: LOGW and LOGI, which write to the log of Android, and JNI; the reading of the
-- socket of the CoAP server, a call of libcoap of which a pass has what it does to the
-- registrations; the branches of ze_coap_server_root.c for the RTP server; and
-- ze_coap_server_example.c, a copy of the example of libcoap.
pub mod Prelude
pub mod Codes
pub mod Ring
pub mod ReqBuf
pub mod ResBuf
pub mod Event
pub mod LogFile
pub mod Carriers
pub mod Double
pub mod Encode
pub mod Manager
pub mod Carrier
pub mod Resources
pub mod Server
pub mod Root
pub mod Rtp
pub mod System
pub mod Tests
