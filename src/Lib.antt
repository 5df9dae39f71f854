-- ===== src/Lib.antt =====
-- The firmware of a serial-to-Ethernet device that takes its jobs from a cloud service and updates itself
-- over the air, on an RP2040 with a WIZnet Ethernet chip.
--
-- The program. The application (app/) connects to the cloud by MQTT, keeps a list of the ids of the jobs
-- that are queued for it, starts the next job, and reports how it ended. A job of type OTA names an image:
-- it is downloaded by HTTP into one area of the flash, its checksum is compared, and a flag in the stored
-- configuration asks for the update. After a restart the boot loader (boot/) copies the image into the
-- application area, takes the flag back, and jumps to the application. What both use stands in port/.
--
-- The files.
--   Prelude      shared names; C strings and number parsing, machine words, exclusive or, memory
--   Crc16        port/device_common/crc16.h: crc16_ccitt and its table. Round, Bitwise and Detect prove
--   Config       port/device_common/config.h: APP_COMMON_t and the parts of it; Layout is how the
--                compiler lays it out, as far as the boot loader depends on it
--   Flash        port/flash_interface/flash_control.c: a function of the same name for each; Layout is
--                flash_control.h, Rom the SDK's two routines. Erase, Areas, Save and Copy prove
--   Device       port/device_common/device_common.c: versions, addresses, numbers
--   Tls          port/network_interface/tls_socket_interface.c: the set-up and the loops
--   Http         port/network_interface/http_interface.c: parse_url_info and http_get; Io the reads and writes
--   Mqtt         port/network_interface/mqtt_interface.c: the state, Table for the subscriptions, Connect
--                for the connection. Session, Subscriptions, Readable and TlsKept
--                prove
--   Jobs.JobList app/aws_iot/iot_jobs_job_list.c; Queue is the specification, Refine and Run prove
--   Jobs.Ota     app/aws_iot/iot_jobs_job_ota_handler.c
--   Jobs.Parse, Jobs.Events, Jobs.Handler, Jobs.Texts
--                app/aws_iot/iot_jobs_handler.c: the parsing, the callback and the waits, the procedures
--   Jobs.Connect the same file: the connection for the jobs and its subscriptions. Subscribed
--                and Ready prove
--   Fleet        app/aws_iot/fleet_provisioning_handler.c: Parse, Events for the callback and the waits,
--                Handle for the run. Below Handle: Closed, TlsKept and Freed, Quiet and Refused, and Linked,
--                Created, Provisioned and Success prove
--   Ethernet     port/network_interface/ethernet.c: the loops for an address and for a name
--   Tasks        app/main.c and app/tasks: one pass of a loop is one step. Consistent, Reach, Refused and
--                Refresh prove
--   Boot         boot/main.c and boot/test_menu.c
--   Update       the two halves of an update together
--
-- The model. A pointer to a buffer is a list of its bytes, and an operation that would write behind the
-- end of a buffer, or read a null pointer, returns `none`, and so does a text that fills its buffer
-- without an end where the code goes on to read behind it (`tempUrl` of parse_url_info, `tmp` of is_ipaddr),
-- and a number that does not fit the `int` that sscanf stores it in. The topic of a message is a text of
-- its own, although in memory the payload follows it. The certificate structure that is written to the
-- flash with the bytes behind it is a function from an index to a byte, as is the flash. The variables of
-- a component are a record that its operations take and return. Unsigned numbers of 16 and 32 bits wrap around where the code does.
--
-- What is given in advance. The SDK's flash routines (FlashRom, with IsFlash as what they promise), the
-- JSON and the CBOR library (Json, Cbor), the TLS library's check of a certificate (Pem), the answers of
-- the name server, of the sockets and of the TLS library (Network, ConnectAnswers), the answers of the
-- HTTP client library and the bytes that each `recv` brings (Exchange), the answers of the MQTT library
-- (ConnectAnswers, Phase, Answer), the packets that it delivers and the clock (Round), what a pass of a
-- task meets (IdleRound, MainRound, JobsRound), and in the boot loader the clock and the keys (Turn). The
-- loops that wait recurse on these lists, and `none` says that a loop still waits at the end of a list;
-- the theorems that a wait ends name the turn that ends it.
--
-- What is not modelled: the TLS library, the DHCP client and the drivers, whose work is in libraries and
-- hardware; interleavings of the tasks inside one pass of a loop; printing and tracing.
pub mod Prelude
pub mod Crc16
pub mod Config
pub mod Flash
pub mod Device
pub mod Tls
pub mod Http
pub mod Mqtt
pub mod Ethernet
pub mod Jobs
pub mod Fleet
pub mod Tasks
pub mod Boot
pub mod Update
