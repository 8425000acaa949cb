-- ===== src/Lib.antt =====
-- A verification library for the front end of the 3AX-UI panel (web/assets/js): the settings of
-- inbounds and outbounds as they travel between the form, JSON and the server, the links that an
-- inbound gives and an outbound is made of, the utilities on plain objects that the models use, and
-- the client of the panel's WebSocket.
--
-- Parts and files
--   Common      the parts of the standard library in use, lists, integers, and `Result`, which is a
--               value or the TypeError that the code throws.
--   Js          the values of JavaScript that the models hold. `Js.Value` has undefined, null, Booleans,
--               integers, texts, arrays and objects; an object is a list of properties in order.
--               `Js.Json.erase` is JSON.parse(JSON.stringify(v)), which drops a property that is
--               undefined. `Js.default` is the default value of a parameter, `Js.or_value` is `||`.
--               The other files hold the laws of reading a property back after JSON.
--   ObjectUtil  the class ObjectUtil of web/assets/js/util/index.js: isEmpty, isArrEmpty, orDefault,
--               clone, deepClone, cloneProps, delProps.
--   Headers     XrayCommonClass.toHeaders and toV2Headers of web/assets/js/model/inbound.js.
--   Stream      the transport settings of web/assets/js/model/inbound.js, a file per class from
--               TcpStreamSettings to StreamSettings; `from_json`, `to_json` and `new` are fromJson,
--               toJson and the constructor, `create` is a constructor that computes. StreamSettings
--               calls the other classes for the part that the network and the security select.
--   Inbound     the class Inbound, in the same file: Clients, Fallback and Settings are the classes of
--               each protocol, Protocol the choice among them (Inbound.Settings.fromJson and
--               getSettings), Sniffing the class of that name, and Model the inbound with its
--               constructor, fromJson, toJson, reset and the canEnable tests. An inbound holds
--               StreamSettings and the settings of its protocol; settings call toHeaders for the port
--               map. VmessLink, VlessLink and TrojanLink are genVmessLink, genVLESSLink and
--               genTrojanLink: the object that a VMess link holds, and the parts and parameters of the
--               other two.
--   Outbound    web/assets/js/model/outbound.js, in the same way: Stream the transport settings, Settings
--               the classes of each protocol, Protocol the choice among them, Mux, and Model the class
--               Outbound. VmessLink and ParamLink are fromVmessLink and fromParamLink, with the
--               outbound that a link of an inbound stands for in Carried and the composition of the
--               two sides in RoundTrip; HysteriaLink is fromHysteriaLink. An outbound writes the parts
--               of its transport that are in use and reads all of them; `Js.Part` is the contract of a
--               part that StreamSettings uses.
--   WsClient    web/assets/js/websocket.js. `WsClient` has connect, disconnect, send and the handlers of
--               a socket; `WsClient.Step` is the relation of one step of the page, of a socket (the
--               current one, or one that was given up and has yet to close) or of a timer; `WsClient.Listeners` has on, off, emit and the handling of a message.
--   RandomUtil  randomBase32String of the same file as ObjectUtil, of the bytes drawn.
--   Tests       runs at concrete inputs.
--
-- Choices
--   A method that changes its object gives the object afterwards. What the code draws at random
--   (identifiers, passwords, short ids, a target) and what the WireGuard key generator of
--   web/assets/js/util/index.js gives, a key pair or the public key of a secret one, is an argument,
--   and so are toLowerCase, atob, parseInt, decodeURIComponent and what Number makes of a text. A link
--   is not a text but what the text is made of: the object, before JSON and Base64, or the parameters.
--   What the browser's URL and a regular expression find in the text is an argument of the reader
--   (`Opened`), and `IsOpened` says that they find what was put in; whether `new URL` takes the text of
--   a link's parts or throws is an argument of the writer (`is_url`). Numbers are integers: a fraction,
--   NaN and the infinities are not values of the model. A text is a list of characters; the models
--   split, join and compare texts and never take one apart within a character. The properties of an
--   object are listed in the order in which they were set; JavaScript lists keys that are array
--   indices first. `Js.KeyOrder` says which orders it keeps, and the one theorem that needs it, that
--   of headers through JSON (and those that use it), asks for such an order. Recursion is structural
--   everywhere: there is no fuel; the inner loop of randomBase32String takes five of its bits at each
--   round. Its buffer is a number below 2 ^ 32. A round trip is stated for fields that JSON can write
--   (`IsJson`), and says what comes back (`kept`), since toJson leaves out what a network or a
--   protocol does not use.
--
-- Not modelled
--   The text of links, genSSLink, genLink and fromLink, and the getters that show an inbound; the
--   accessors of a client that use moment or fractions; web/assets/js/model/dbinbound.js;
--   ObjectUtil.equals, deepSearch and getPropIgnoreCase; formatting, cookies and Curve25519 keys. A
--   callback of the WebSocket client that throws is caught and logged by `emit`; a callback that
--   changes the listeners while they are called is left out. The browser's own parts (sockets, timers,
--   axios, the page) are the environment's steps. Values have no identity: an object that is shared and
--   a copy of it are the same value, so nothing is said of what deepClone and clone share. The name of a
--   header is a text. The setter of the protocol leaves `tls` out, which nothing reads, and the reader
--   of a link the properties `type` and `seed` of KCP, which have no field. The server, in Go, and
--   third-party scripts are outside.
mod Common
pub mod Js
pub mod ObjectUtil
pub mod Headers
pub mod Stream
pub mod Outbound
pub mod WsClient
pub mod RandomUtil
pub mod Inbound
mod Tests
