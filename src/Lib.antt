-- ===== src/Lib.antt =====
-- woody: a C++ library for http and websocket servers over the muduo network library, as models
-- whose theorems the kernel checks.
--
-- The program. `HTTPServer` (woody/http/http_server.cc) makes an `HTTPHandler` for each connection.
-- The handler's `OnData` loop takes what the network library has read and hands it to its
-- `HTTPCodec`, which runs the vendored `http_parser` over it and builds an `HTTPRequest` in the
-- parser's callbacks. A complete request goes to the first `HTTPApplication` whose path prefix is
-- one of the url; the application fills an `HTTPResponse` and sends it with `End`. An application
-- may hand the connection to a `WebsocketHandler` by `HandleUpgrade`. From then on the same loop
-- feeds `WebsocketCodec`, whose `WebsocketParser` cuts the bytes into frames; the codec unmasks
-- them, joins fragments and calls the application's message callbacks. Sending goes the other way:
-- message, frame, string.
--
-- The files.
--   Shared        lists over the native numbers, tests, tables of bit masks, text.
--   Base.Endian   woody/base/endian_util.h: bytes in network order.
--   Base.Random   woody/base/base_util.h: `GetRandomByte`; Websocket.Frame.OneKeyByte has the keys that
--                 it gives.
--   Base.StringMap  what the sources use of `std::map<std::string, std::string>`.
--   Net.Buffer    muduo's input buffer: an interface, with its documented laws as fields.
--   Net.Loop      the loop of `WebsocketHandler::OnData` and `HTTPHandler::OnData`, over that
--                 interface and over the codec's call; Loop.Reads is one read after the other,
--                 Loop.Interleaving the reads of several connections.
--   Bytree        lib/bytree/string_util.hpp and ssl_util.hpp: prefix, suffix and trim; Base64 and
--                 the bytes of a digest.
--   Websocket.Frame, Parser, Message, Codec  woody/websocket/websocket_{frame,parser,message,codec}:
--                 `mask`, `parse` (one function for each phase of `Parse`), `on_parsed_frame` and
--                 a function for each frame handler, `convert_frame_to_string` and
--                 `convert_message_to_frame` (Codec.Send).
--   Websocket.Codec.Assembly  the abstract assembler of messages, the specification of the codec;
--                 Codec.Wire the wire form of a frame, the specification of both directions: with
--                 its length in any form that RFC 6455 has, as a client writes it, and in the one
--                 that the server writes.
--                 Codec.Refusals says which frames the codec turns down. Codec.Boxes is the machine
--                 that the codec is for any frames, Codec.Assembler the interface of both machines, over
--                 which the handler's reads are proved.
--   Websocket.Handler, Upgrade  woody/websocket/websocket_handler: the loop, the callbacks and
--                 sending; `HandleUpgrade`. Handler.Reachable is the step relation of its reads,
--                 Handler.Reads and Handler.Session are sequences of reads.
--   Websocket.Application  the application's message callbacks and what they call;
--                 Application.ReadBack what a client reads of it.
--   Websocket.Service  the handshake and what comes behind it.
--   Http.Request, Codec, Response, Handler, Server  woody/http/http_{request,codec,response,handler,
--                 server}.
--   Http.Response.Text  the text of a response written out, the specification of `End`.
--   Http.Codec.Sequence, Handler.Session  the requests of a connection, over all its reads and in any
--                 pieces; Http.Service a client's request from the reads to the application,
--                 Server.Interleaving the connections of a server.
--   Connection    the parts together: the application interface (woody/http/http_application.h), the
--                 callbacks that take a request to an application (`HTTPHandler::OnMessageComplete`,
--                 `HTTPServer::OnRequest`), and the message callback of the connection, which an
--                 upgrade hands to the websocket handler. Connection.Branches has every end of
--                 a read with a handshake, Connection.Early a handshake with more behind it in its
--                 read, Connection.Upgraded one connection from its requests to its frames,
--                 Connection.Courses all connections of a server.
--   Sample        example/http/server.cc.
--   Examples      a buffer and concrete inputs, on which the theorems are applied.
--
-- How state and effects are written. An object is a record of its fields; a method is a function
-- from the object to the next one, with what it returns. A `boost::function` callback is an event in
-- a list, in the order of the calls; the handlers map the events of their codecs to actions on the
-- application and the connection. Exceptions and failed assertions are constructors of a result
-- (`Net.Loop.Outcome`, `Websocket.Upgrade.Upgrade`, `Connection.Run`). Bytes are numbers below 256;
-- `size_t` and `uint64_t` arithmetic is written out with its wrap-around. The parser's fields that
-- no constructor initialises are arbitrary, as is the status code of a fresh response.
--
-- Fuel. The `OnData` loop runs on as much fuel as the buffer has bytes, and `ParseUrl` on as much
-- as the query string has characters; see `Net.Loop.Laws` and `Http.Request.Params`. Everything else
-- is structural.
--
-- Not modelled: muduo and `http_parser` (vendored; their calls are parameters: a buffer with its
-- laws, and a run that gives the callbacks in order), boost's casts, split and SHA-1 digest
-- (parameters), logging, threads (the server has one event loop, which runs the callbacks one after
-- the other), the C library's `rand` (a parameter), the abstract classes of woody/base/base_handler.h,
-- the tests. An application's state: it answers by the request and the
-- fresh response, or by the message, alone. A text
-- sent is an action of the connection; what the network makes of it is muduo's, of which
-- Application.ReadBack takes that nothing is sent behind a forced close.
pub mod Shared
pub mod Base
pub mod Net
pub mod Bytree
pub mod Websocket
pub mod Http
pub mod Connection
pub mod Sample
pub mod Examples
