-- ===== src/Lib.antt =====
-- The verification library of xfrpc, a client of the frp reverse proxy: it keeps one connection to
-- the server, carries many streams over it by the tcp mux protocol, and joins each stream to a
-- local service.
--
-- The parts of the program and the files that model them:
--   * tcpmux.c and tcpmux.h, the streams. Ring models `struct ring_buffer` and its four routines,
--     Mux the enumerations and the stream object, Mux.Header the 12 bytes of a frame's header, and
--     Mux.Flags the state machine of a stream, cut out of `process_flags`, `get_send_flags` and
--     `tmux_stream_close`. Frames holds the functions that send frames, Write `tmux_stream_write`,
--     and Receive the handlers of the frames that arrive.
--   * client.c and client.h, the proxy clients. Process.Registry models the tables of streams and of
--     clients, whose functions call each other in both files; Service the proxy service.
--   * proxy_tcp.c: Socks5 models the parsing of an address and `handle_ss5`, Socks5.Proxy
--     `handle_socks5`.
--   * client.c and proxy_tcp.c again: Tunnel models the start of a tunnel and the callbacks of the
--     connections at its two ends.
--   * control.c: Receiver models the loop of `recv_cb` under the tcp mux, which cuts the input into
--     frames. Control models the state of the control connection and `send_enc_msg_frp_server`,
--     Control.Requests what the client asks for, Control.Incoming the handlers of the messages up to
--     `handle_frps_msg` and `recv_cb` without the mux, and Control.Alive the heartbeat and the
--     events of the connection, with the restart after its loss. Control.Secrecy sets the two ends of
--     the encryption side by side; Control.Tail follows the bytes behind an order to the event of
--     the local connection.
--   * crypto.c: Crypto models the coders, the initial vector and both directions; Crypto.Chain is
--     a cipher that chains its bytes, on which the tests run.
--   * msg.c and msg.h: Message models the types and the header of a message, Message.Marshal the
--     texts that the client sends, Message.Unmarshal those that it reads. Json is the interface of
--     json-c, Json.Assoc an object as a list of its keys and values.
--   * login.c: Login models the login record and the check of the answer.
--   * proxy_ftp.c: Ftp models the scan and the print of the answer to PASV and the callback that
--     replaces the address in it.
--   * tcp_redir.c: Redir models the callbacks and the worker of a redirection over a list of events.
--   * config.c: Config and its children model the reading and the validation of the configuration;
--     Config.Response is `proxy_service_resp_raw` of control.c, which changes the same table.
--   * utils.c: Utils models `dns_unified`.
--   * common.c: Wire models `hton64` and `ntoh64`, beside the C library's conversions.
--   * uthash.h: Uthash is the interface of the hash tables, with the laws that the code relies on;
--     Uthash.Listed is a table that has them.
--
-- How state is modelled: Process is the record of the static variables, of the heap of proxy clients
-- (a function from addresses, `none` where nothing is allocated) and of what went to the
-- connections. A pointer to a stream is a StreamRef, so that the stream inside a client and the
-- client share their memory; a read through a pointer to freed memory is the fault `dangling`. A
-- function that can stop or misbehave returns a Result, whose faults are a failed assertion, a call
-- of `exit`, a dangling pointer and an access outside a buffer. Each function has the name of its C
-- function. Numbers are natural numbers; unsigned arithmetic that can wrap is written by add32 and
-- sub32. Bytes are numbers, and a word in network order is the list of its bytes.
--
-- Loops over a count are structural. The loop of `recv_cb` runs on fuel, two more than the bytes of
-- the input: each round that goes on takes a byte or gives up the stream that was held, once.
--
-- Parameters, which Control takes together as the record Env: the hash tables; the cipher of OpenSSL
-- and its key derivation; json-c; MD5; `rand` after `srand` of a number; the byte order of the host;
-- libevent's answer to a connection attempt (`connect`, `dial`). The handler of the bytes of a stream
-- (`handle_data_fn_t`), which the code passes as a function pointer, is a parameter of Receive; the
-- tests run it with `handle_frps_msg`, which is the program's. json-c is given the bytes of a buffer
-- from the text on: that it reads on behind a buffer that ends inside an object is not seen. The
-- service of a client is a copy of the one in the table. The entries that the ini parser hands over
-- and what the system says of itself are arguments. The clock stands still while a callback runs: it
-- is the field `now` of Control.
--
-- Not modelled: logging; the set-up and the end of libevent's event base and of the process;
-- compression, which passes bytes on between calls of zlib; the command line; the libraries that are
-- copied into the repository (uthash, inih, fastpbkdf2, json-c, libevent).
pub mod Prelude
pub mod Ring
pub mod Wire
pub mod Mux
pub mod Uthash
pub mod Service
pub mod Process
pub mod Frames
pub mod Write
pub mod Socks5
pub mod Receive
pub mod Receiver
pub mod Tunnel
pub mod Ftp
pub mod Json
pub mod Login
pub mod Message
pub mod Utils
pub mod Redir
pub mod Config
pub mod Control
pub mod Crypto
mod Tests
