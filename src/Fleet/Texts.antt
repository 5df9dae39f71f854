-- ===== src/Fleet/Texts.antt =====
-- The texts of app/aws_iot/fleet_provisioning_handler.c and aws_iot_config.h, as bytes.
use rp2040_wiznet_eaa_s_aws.Prelude.{ℕ, List, [], ◌∷◌}

abbrev pub create_accepted : List ℕ
create_accepted =
    b'$' ∷ b'a' ∷ b'w' ∷ b's' ∷ b'/' ∷ b'c' ∷ b'e' ∷ b'r' ∷ b't' ∷ b'i' ∷ b'f' ∷ b'i' ∷ b'c' ∷ b'a'
    ∷ b't' ∷ b'e' ∷ b's' ∷ b'/' ∷ b'c' ∷ b'r' ∷ b'e' ∷ b'a' ∷ b't' ∷ b'e' ∷ b'/' ∷ b'c' ∷ b'b'
    ∷ b'o' ∷ b'r' ∷ b'/' ∷ b'a' ∷ b'c' ∷ b'c' ∷ b'e' ∷ b'p' ∷ b't' ∷ b'e' ∷ b'd' ∷ []

abbrev pub create_rejected : List ℕ
create_rejected =
    b'$' ∷ b'a' ∷ b'w' ∷ b's' ∷ b'/' ∷ b'c' ∷ b'e' ∷ b'r' ∷ b't' ∷ b'i' ∷ b'f' ∷ b'i' ∷ b'c' ∷ b'a'
    ∷ b't' ∷ b'e' ∷ b's' ∷ b'/' ∷ b'c' ∷ b'r' ∷ b'e' ∷ b'a' ∷ b't' ∷ b'e' ∷ b'/' ∷ b'c' ∷ b'b'
    ∷ b'o' ∷ b'r' ∷ b'/' ∷ b'r' ∷ b'e' ∷ b'j' ∷ b'e' ∷ b'c' ∷ b't' ∷ b'e' ∷ b'd' ∷ []

abbrev pub create_key_and_cert : List ℕ
create_key_and_cert =
    b'$' ∷ b'a' ∷ b'w' ∷ b's' ∷ b'/' ∷ b'c' ∷ b'e' ∷ b'r' ∷ b't' ∷ b'i' ∷ b'f' ∷ b'i' ∷ b'c' ∷ b'a'
    ∷ b't' ∷ b'e' ∷ b's' ∷ b'/' ∷ b'c' ∷ b'r' ∷ b'e' ∷ b'a' ∷ b't' ∷ b'e' ∷ b'/' ∷ b'c' ∷ b'b'
    ∷ b'o' ∷ b'r' ∷ []

abbrev pub provisioning_templates : List ℕ
provisioning_templates =
    b'$' ∷ b'a' ∷ b'w' ∷ b's' ∷ b'/' ∷ b'p' ∷ b'r' ∷ b'o' ∷ b'v' ∷ b'i' ∷ b's' ∷ b'i' ∷ b'o' ∷ b'n'
    ∷ b'i' ∷ b'n' ∷ b'g' ∷ b'-' ∷ b't' ∷ b'e' ∷ b'm' ∷ b'p' ∷ b'l' ∷ b'a' ∷ b't' ∷ b'e' ∷ b's'
    ∷ b'/' ∷ []

abbrev pub provision_accepted : List ℕ
provision_accepted =
    b'/' ∷ b'p' ∷ b'r' ∷ b'o' ∷ b'v' ∷ b'i' ∷ b's' ∷ b'i' ∷ b'o' ∷ b'n' ∷ b'/' ∷ b'j' ∷ b's' ∷ b'o'
    ∷ b'n' ∷ b'/' ∷ b'a' ∷ b'c' ∷ b'c' ∷ b'e' ∷ b'p' ∷ b't' ∷ b'e' ∷ b'd' ∷ []

abbrev pub provision_rejected : List ℕ
provision_rejected =
    b'/' ∷ b'p' ∷ b'r' ∷ b'o' ∷ b'v' ∷ b'i' ∷ b's' ∷ b'i' ∷ b'o' ∷ b'n' ∷ b'/' ∷ b'j' ∷ b's' ∷ b'o'
    ∷ b'n' ∷ b'/' ∷ b'r' ∷ b'e' ∷ b'j' ∷ b'e' ∷ b'c' ∷ b't' ∷ b'e' ∷ b'd' ∷ []

abbrev pub provision : List ℕ
provision =
    b'/' ∷ b'p' ∷ b'r' ∷ b'o' ∷ b'v' ∷ b'i' ∷ b's' ∷ b'i' ∷ b'o' ∷ b'n' ∷ b'/' ∷ b'j' ∷ b's' ∷ b'o'
    ∷ b'n' ∷ []

abbrev pub register_token : List ℕ
register_token =
    b'{' ∷ 13 ∷ 10 ∷ b' ' ∷ b' ' ∷ b' ' ∷ 34 ∷ b'c' ∷ b'e' ∷ b'r' ∷ b't' ∷ b'i' ∷ b'f' ∷ b'i' ∷ b'c'
    ∷ b'a' ∷ b't' ∷ b'e' ∷ b'O' ∷ b'w' ∷ b'n' ∷ b'e' ∷ b'r' ∷ b's' ∷ b'h' ∷ b'i' ∷ b'p' ∷ b'T'
    ∷ b'o' ∷ b'k' ∷ b'e' ∷ b'n' ∷ 34 ∷ b' ' ∷ b':' ∷ b' ' ∷ 34 ∷ []

abbrev pub register_serial : List ℕ
register_serial =
    34 ∷ b',' ∷ 13 ∷ 10 ∷ b' ' ∷ b' ' ∷ b' ' ∷ 34 ∷ b'p' ∷ b'a' ∷ b'r' ∷ b'a' ∷ b'm' ∷ b'e' ∷ b't'
    ∷ b'e' ∷ b'r' ∷ b's' ∷ 34 ∷ b' ' ∷ b':' ∷ b' ' ∷ b'{' ∷ 13 ∷ 10 ∷ b' ' ∷ b' ' ∷ b' ' ∷ b' '
    ∷ b' ' ∷ b' ' ∷ b' ' ∷ 34 ∷ b'S' ∷ b'e' ∷ b'r' ∷ b'i' ∷ b'a' ∷ b'l' ∷ b'N' ∷ b'u' ∷ b'm' ∷ b'b'
    ∷ b'e' ∷ b'r' ∷ 34 ∷ b' ' ∷ b':' ∷ b' ' ∷ 34 ∷ []

abbrev pub register_location : List ℕ
register_location =
    34 ∷ b',' ∷ 13 ∷ 10 ∷ b' ' ∷ b' ' ∷ b' ' ∷ b' ' ∷ b' ' ∷ b' ' ∷ b' ' ∷ 34 ∷ b'D' ∷ b'e' ∷ b'v'
    ∷ b'i' ∷ b'c' ∷ b'e' ∷ b'L' ∷ b'o' ∷ b'c' ∷ b'a' ∷ b't' ∷ b'i' ∷ b'o' ∷ b'n' ∷ 34 ∷ b' ' ∷ b':'
    ∷ b' ' ∷ 34 ∷ []

abbrev pub register_manufacturer : List ℕ
register_manufacturer =
    34 ∷ b',' ∷ 13 ∷ 10 ∷ b' ' ∷ b' ' ∷ b' ' ∷ b' ' ∷ b' ' ∷ b' ' ∷ b' ' ∷ 34 ∷ b'M' ∷ b'a' ∷ b'n'
    ∷ b'u' ∷ b'f' ∷ b'a' ∷ b'c' ∷ b't' ∷ b'u' ∷ b'r' ∷ b'e' ∷ b'r' ∷ 34 ∷ b' ' ∷ b':' ∷ b' ' ∷ 34
    ∷ []

abbrev pub register_end : List ℕ
register_end = 34 ∷ 13 ∷ 10 ∷ b' ' ∷ b' ' ∷ b' ' ∷ b'}' ∷ 13 ∷ 10 ∷ b'}' ∷ []

abbrev pub certificate_id : List ℕ
certificate_id =
    b'c' ∷ b'e' ∷ b'r' ∷ b't' ∷ b'i' ∷ b'f' ∷ b'i' ∷ b'c' ∷ b'a' ∷ b't' ∷ b'e' ∷ b'I' ∷ b'd' ∷ []

abbrev pub certificate_pem : List ℕ
certificate_pem =
    b'c' ∷ b'e' ∷ b'r' ∷ b't' ∷ b'i' ∷ b'f' ∷ b'i' ∷ b'c' ∷ b'a' ∷ b't' ∷ b'e' ∷ b'P' ∷ b'e' ∷ b'm'
    ∷ []

abbrev pub private_key_text : List ℕ
private_key_text = b'p' ∷ b'r' ∷ b'i' ∷ b'v' ∷ b'a' ∷ b't' ∷ b'e' ∷ b'K' ∷ b'e' ∷ b'y' ∷ []

abbrev pub ownership_token_text : List ℕ
ownership_token_text =
    b'c' ∷ b'e' ∷ b'r' ∷ b't' ∷ b'i' ∷ b'f' ∷ b'i' ∷ b'c' ∷ b'a' ∷ b't' ∷ b'e' ∷ b'O' ∷ b'w' ∷ b'n'
    ∷ b'e' ∷ b'r' ∷ b's' ∷ b'h' ∷ b'i' ∷ b'p' ∷ b'T' ∷ b'o' ∷ b'k' ∷ b'e' ∷ b'n' ∷ []
