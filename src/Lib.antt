-- ===== src/Lib.antt =====
-- melsec_mc: a client for the MC protocol of Mitsubishi PLCs, over TCP and UDP. A command's
-- parameters become request data, these a frame, the transport sends it and finds the response's
-- frame in what it receives, and the response's data become a value again.
--
-- The modelled parts, by file:
--   Error       src/error.rs           `MelsecError`; what a function returns, a panic included
--   McDefine    src/mc_define.rs       constants, frame formats, `AccessRoute`
--   McFrame     src/mc_frame.rs        `detect_frame` and `parse_frame`
--   Request     src/request.rs         the serial counter, `McRequest`, building and parsing frames
--   Response    src/response.rs        `parse_mc_payload`, `is_success`
--   Config      src/config.rs          the settings, their defaults, `from_env`
--   Transport   src/transport.rs       `perform_stream_io`; Transport.Tcp and Transport.Udp have
--                                      `send_and_recv_tcp` and `send_and_recv_udp`
--   Codec       src/mc_client.rs       `FromWords`, `ToWords`, the loops of `read_words_as` and
--                                      `write_words_as`
--   Client      src/mc_client.rs       the exchange of a command, the end-code check, the retries,
--                                      `echo`; Client.Commands has the other commands, Client.Bits
--                                      a read of bits
--   Command     src/commands.rs        command ids and their names
--   PlcSeries   src/plc_series.rs      the series
--   Endpoint    src/endpoint.rs        `ConnectionTarget`
--   Device      src/device.rs          the devices' tables, `Symbol`; Device.Load has
--                                      `parse_devices_toml`, Device.Address
--                                      `parse_device_and_address`
--   Device.Codes src/device_code.rs    the codes and their names
--   DeviceRegistry  src/device_registry.rs  the validation of device files, the overrides
--   ErrorCodes  src/error_codes.rs     the registry of end codes and the categories;
--                                      ErrorCodes.Load reads codes and files
--   TomlHelpers src/toml_helpers.rs    the position in the text of an error of the crate toml
--   Registry    src/command_registry.rs  `CommandSpec`: Registry.Fields and Registry.Blocks have
--                                      `build_request`, Registry.Response has `parse_response`,
--                                      Registry.Params and Registry.Nibbles the parameter helpers;
--                                      Registry.Formats, Registry.File and Registry.Validate read
--                                      and check the file of commands
--   Defaults    src/lib.rs             `init_defaults`, and what `McClient::new` sets
--   Json        (serde_json)           the interface to JSON values, with Json.Plain in the tests
-- Registry.DeviceText, Client.FromFile and Client.Written compose the parts, from the file of
-- commands and the text of a device to the words that are read or written; Client.WriteRead has a
-- write and a read of the memory of a PLC, for which Client.Plc is the interface.
-- Bytes, Text, Files and Prelude have what the standard library gives; Match is `match` on a
-- string. Child modules that are not named here have the theorems on their parent.
--
-- How state is modelled. The serial counter, the transport's state and the registries are passed
-- explicitly. A TCP stream is the outcomes of the calls to come on it, a UDP socket the
-- datagrams to come; what tokio and the name resolution return are arguments. The pool of
-- connections is a function from addresses; the lock on an address is held for a whole call, so
-- its calls come one after another. A byte is a number below 256 and a `u16` one below 65536, as
-- hypotheses where that matters; conversions and shifts that wrap are written with `%`. `usize`
-- has 64 bits. Sums of `u64` and `usize` that can overflow on the caller's values are checked:
-- past 2 ^ 64 - 1 they are a panic, as in a build with overflow checks.
--
-- Texts and files. A file of definitions is what `toml::from_str` gives, its entries or the text
-- of its error; a `toml::Value` is an interface. The files of the system and the environment are
-- arguments, as are the order in which a `HashMap` is iterated, the embedded codes' names and the
-- upper case of characters beyond ASCII. Texts are sequences of characters, white space is
-- Unicode's.
--
-- Bounds and fuel. The inner loop of `perform_stream_io` has fuel for each byte of its buffer and
-- one more, and each of its rounds drops at least one; the loop of `read_words_as` has fuel for
-- each element and each word, and each of its rounds uses up one of them. Both are proved to be
-- enough. All other loops recurse on a list or on a count.
--
-- Not modelled: logging; the crates toml and serde, and what serde derives; build script, examples
-- and tests.
pub mod Prelude
pub mod Text
pub mod Files
pub mod Error
pub mod Bytes
pub mod Match
pub mod McDefine
pub mod McFrame
pub mod Request
pub mod Response
pub mod Config
pub mod Transport
pub mod Codec
pub mod PlcSeries
pub mod Command
pub mod Endpoint
pub mod Device
pub mod TomlHelpers
pub mod DeviceRegistry
pub mod ErrorCodes
pub mod Json
pub mod Registry
pub mod Client
pub mod Defaults
pub mod Tests
