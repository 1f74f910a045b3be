-- ===== src/Codes.antt =====
-- The constants that ze_streaming_manager.h, ze_coap_payload.h and ze_timing.h define. A negative
-- `int` is its 32-bit pattern.
use ze_sense_server.Prelude.{ℕ, ◌-◌, ◌^◌}

-- Request codes of the Streaming Manager.
abbrev pub sm_req_start : ℕ
sm_req_start = 10

abbrev pub sm_req_stop : ℕ
sm_req_stop = 20

abbrev pub sm_req_oneshot : ℕ
sm_req_oneshot = 30

abbrev pub sm_req_invalid : ℕ
sm_req_invalid = 2 ^ 32 - 1

-- Response codes of the Streaming Manager.
abbrev pub stream_update : ℕ
stream_update = 50

abbrev pub oneshot : ℕ
oneshot = 60

abbrev pub stream_stopped : ℕ
stream_stopped = 70

abbrev pub invalid_response : ℕ
invalid_response = 40

abbrev pub sm_error : ℕ
sm_error = 2 ^ 32 - 1

abbrev pub default_freq : ℕ
default_freq = 10

abbrev pub queue_req_ratio : ℕ
queue_req_ratio = 5

abbrev pub source_buffer_size : ℕ
source_buffer_size = 1

abbrev pub repetition_on : ℕ
repetition_on = 1

abbrev pub repetition_off : ℕ
repetition_off = 2

abbrev pub ze_numsensors : ℕ
ze_numsensors = 15

-- Sensor types: Android's, and those that its NDK lacks.
abbrev pub accelerometer : ℕ
accelerometer = 1

abbrev pub orientation : ℕ
orientation = 3

abbrev pub gyroscope : ℕ
gyroscope = 4

abbrev pub light : ℕ
light = 5

abbrev pub proximity : ℕ
proximity = 8

abbrev pub location : ℕ
location = 14

-- Message types of libcoap: COAP_MESSAGE_CON and COAP_MESSAGE_NON.
abbrev pub con : ℕ
con = 0

abbrev pub non : ℕ
non = 1

abbrev pub rtp_tsclock_freq : ℕ
rtp_tsclock_freq = 1000

abbrev pub num_samples : ℕ
num_samples = 5000

-- The error of a timed wait: ETIMEDOUT of Linux.
abbrev pub etimedout : ℕ
etimedout = 110

-- The space of a printed float in a payload, and the packet types.
abbrev pub charlen : ℕ
charlen = 20

abbrev pub datapoint : ℕ
datapoint = 1

abbrev pub sendreport : ℕ
sendreport = 2

abbrev pub rtcp_sr_bandwidth_threshold : ℕ
rtcp_sr_bandwidth_threshold = 1000
