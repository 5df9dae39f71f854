-- ===== src/Jobs/Texts.antt =====
-- The texts of app/aws_iot/iot_jobs_handler.c and aws_iot_config.h, as bytes.
use rp2040_wiznet_eaa_s_aws.Prelude.{ℕ, List, [], ◌∷◌}

abbrev pub queued_job_id : List ℕ
queued_job_id =
    b'q' ∷ b'u' ∷ b'e' ∷ b'u' ∷ b'e' ∷ b'd' ∷ b'J' ∷ b'o' ∷ b'b' ∷ b's' ∷ b'[' ∷ b'0' ∷ b']' ∷ b'.'
    ∷ b'j' ∷ b'o' ∷ b'b' ∷ b'I' ∷ b'd' ∷ []

abbrev pub execution_job_id : List ℕ
execution_job_id =
    b'e' ∷ b'x' ∷ b'e' ∷ b'c' ∷ b'u' ∷ b't' ∷ b'i' ∷ b'o' ∷ b'n' ∷ b'.' ∷ b'j' ∷ b'o' ∷ b'b' ∷ b'I'
    ∷ b'd' ∷ []

abbrev pub execution_job_document : List ℕ
execution_job_document =
    b'e' ∷ b'x' ∷ b'e' ∷ b'c' ∷ b'u' ∷ b't' ∷ b'i' ∷ b'o' ∷ b'n' ∷ b'.' ∷ b'j' ∷ b'o' ∷ b'b' ∷ b'D'
    ∷ b'o' ∷ b'c' ∷ b'u' ∷ b'm' ∷ b'e' ∷ b'n' ∷ b't' ∷ []

abbrev pub execution_job_type : List ℕ
execution_job_type =
    b'e' ∷ b'x' ∷ b'e' ∷ b'c' ∷ b'u' ∷ b't' ∷ b'i' ∷ b'o' ∷ b'n' ∷ b'.' ∷ b'j' ∷ b'o' ∷ b'b' ∷ b'D'
    ∷ b'o' ∷ b'c' ∷ b'u' ∷ b'm' ∷ b'e' ∷ b'n' ∷ b't' ∷ b'.' ∷ b'j' ∷ b'o' ∷ b'b' ∷ b'T' ∷ b'y'
    ∷ b'p' ∷ b'e' ∷ []

abbrev pub fw_url : List ℕ
fw_url = b'f' ∷ b'w' ∷ b'U' ∷ b'r' ∷ b'l' ∷ []

abbrev pub fw_version : List ℕ
fw_version = b'f' ∷ b'w' ∷ b'V' ∷ b'e' ∷ b'r' ∷ b's' ∷ b'i' ∷ b'o' ∷ b'n' ∷ []

abbrev pub fw_size : List ℕ
fw_size = b'f' ∷ b'w' ∷ b'S' ∷ b'i' ∷ b'z' ∷ b'e' ∷ []

abbrev pub fw_crc : List ℕ
fw_crc = b'f' ∷ b'w' ∷ b'C' ∷ b'r' ∷ b'c' ∷ []

abbrev pub aws_things : List ℕ
aws_things = b'$' ∷ b'a' ∷ b'w' ∷ b's' ∷ b'/' ∷ b't' ∷ b'h' ∷ b'i' ∷ b'n' ∷ b'g' ∷ b's' ∷ b'/' ∷ []

abbrev pub jobs : List ℕ
jobs = b'/' ∷ b'j' ∷ b'o' ∷ b'b' ∷ b's' ∷ b'/' ∷ []

abbrev pub get_accepted : List ℕ
get_accepted =
    b'/' ∷ b'j' ∷ b'o' ∷ b'b' ∷ b's' ∷ b'/' ∷ b'g' ∷ b'e' ∷ b't' ∷ b'/' ∷ b'a' ∷ b'c' ∷ b'c' ∷ b'e'
    ∷ b'p' ∷ b't' ∷ b'e' ∷ b'd' ∷ []

abbrev pub start_next_accepted : List ℕ
start_next_accepted =
    b'/' ∷ b'j' ∷ b'o' ∷ b'b' ∷ b's' ∷ b'/' ∷ b's' ∷ b't' ∷ b'a' ∷ b'r' ∷ b't' ∷ b'-' ∷ b'n' ∷ b'e'
    ∷ b'x' ∷ b't' ∷ b'/' ∷ b'a' ∷ b'c' ∷ b'c' ∷ b'e' ∷ b'p' ∷ b't' ∷ b'e' ∷ b'd' ∷ []

abbrev pub update_accepted : List ℕ
update_accepted =
    b'/' ∷ b'u' ∷ b'p' ∷ b'd' ∷ b'a' ∷ b't' ∷ b'e' ∷ b'/' ∷ b'a' ∷ b'c' ∷ b'c' ∷ b'e' ∷ b'p' ∷ b't'
    ∷ b'e' ∷ b'd' ∷ []

abbrev pub jobs_get : List ℕ
jobs_get = b'/' ∷ b'j' ∷ b'o' ∷ b'b' ∷ b's' ∷ b'/' ∷ b'g' ∷ b'e' ∷ b't' ∷ []

abbrev pub jobs_start_next : List ℕ
jobs_start_next =
    b'/' ∷ b'j' ∷ b'o' ∷ b'b' ∷ b's' ∷ b'/' ∷ b's' ∷ b't' ∷ b'a' ∷ b'r' ∷ b't' ∷ b'-' ∷ b'n' ∷ b'e'
    ∷ b'x' ∷ b't' ∷ []

abbrev pub update : List ℕ
update = b'/' ∷ b'u' ∷ b'p' ∷ b'd' ∷ b'a' ∷ b't' ∷ b'e' ∷ []

abbrev pub update_head : List ℕ
update_head =
    b'{' ∷ 13 ∷ 10 ∷ b' ' ∷ b' ' ∷ b' ' ∷ 34 ∷ b's' ∷ b't' ∷ b'a' ∷ b't' ∷ b'u' ∷ b's' ∷ 34 ∷ b' '
    ∷ b':' ∷ b' ' ∷ 34 ∷ []

abbrev pub update_middle : List ℕ
update_middle =
    34 ∷ b',' ∷ b' ' ∷ 13 ∷ 10 ∷ b' ' ∷ b' ' ∷ b' ' ∷ 34 ∷ b'l' ∷ b'o' ∷ b'g' ∷ b's' ∷ 34 ∷ b' '
    ∷ b' ' ∷ b' ' ∷ b':' ∷ b' ' ∷ 34 ∷ []

abbrev pub update_tail : List ℕ
update_tail = 34 ∷ b' ' ∷ 13 ∷ 10 ∷ b'}' ∷ []

abbrev pub null_text : List ℕ
null_text = b'(' ∷ b'n' ∷ b'u' ∷ b'l' ∷ b'l' ∷ b')' ∷ []

abbrev pub job_type_ota : List ℕ
job_type_ota = b'O' ∷ b'T' ∷ b'A' ∷ []

abbrev pub status_failed : List ℕ
status_failed = b'F' ∷ b'A' ∷ b'I' ∷ b'L' ∷ b'E' ∷ b'D' ∷ []

abbrev pub status_succeeded : List ℕ
status_succeeded = b'S' ∷ b'U' ∷ b'C' ∷ b'C' ∷ b'E' ∷ b'E' ∷ b'D' ∷ b'E' ∷ b'D' ∷ []

abbrev pub fail_to_parse : List ℕ
fail_to_parse =
    b'F' ∷ b'a' ∷ b'i' ∷ b'l' ∷ b' ' ∷ b't' ∷ b'o' ∷ b' ' ∷ b'p' ∷ b'a' ∷ b'r' ∷ b's' ∷ b'i' ∷ b'n'
    ∷ b'g' ∷ b' ' ∷ b'o' ∷ b't' ∷ b'a' ∷ b' ' ∷ b'j' ∷ b'o' ∷ b'b' ∷ b' ' ∷ b'p' ∷ b'a' ∷ b'r'
    ∷ b'a' ∷ b'm' ∷ b's' ∷ []

abbrev pub invalid_version : List ℕ
invalid_version =
    b'I' ∷ b'n' ∷ b'v' ∷ b'a' ∷ b'l' ∷ b'i' ∷ b'd' ∷ b' ' ∷ b'F' ∷ b'i' ∷ b'r' ∷ b'm' ∷ b'w' ∷ b'a'
    ∷ b'r' ∷ b'e' ∷ b' ' ∷ b'V' ∷ b'e' ∷ b'r' ∷ b's' ∷ b'i' ∷ b'o' ∷ b'n' ∷ b'.' ∷ b' ' ∷ b'C'
    ∷ b'u' ∷ b'r' ∷ b'r' ∷ b'e' ∷ b'n' ∷ b't' ∷ b' ' ∷ b'V' ∷ b'e' ∷ b'r' ∷ b's' ∷ b'i' ∷ b'o'
    ∷ b'n' ∷ b' ' ∷ b':' ∷ b' ' ∷ b'1' ∷ b'.' ∷ b'0' ∷ b'.' ∷ b'0' ∷ b',' ∷ b' ' ∷ b'U' ∷ b'p'
    ∷ b'd' ∷ b'a' ∷ b't' ∷ b'e' ∷ b' ' ∷ b'V' ∷ b'e' ∷ b'r' ∷ b's' ∷ b'i' ∷ b'o' ∷ b'n' ∷ b' '
    ∷ b':' ∷ b' ' ∷ []
