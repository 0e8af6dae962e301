-- ===== src/Config/Tests.antt =====
-- Concrete files and numbers.
use scand.Prelude.{◌≡◌, refl, true, none, some, codes, bytes_eq}
use scand.Config.{
  negsuc, stoi, skip_space, positive_int, negative_int, digits, digits_from, to_unsigned_short,
  config_ini_handler, in_server, defaults,
}

stoi_runs : stoi (codes " -12x") ≡ some (negsuc 11)
unfolding stoi skip_space positive_int negative_int digits digits_from
stoi_runs = refl

stoi_too_big : stoi (codes "2147483648") ≡ none
unfolding stoi skip_space positive_int negative_int digits digits_from
stoi_too_big = refl

-- A port outside of 16 bits is cut, not refused.
port_wraps :
    config_ini_handler defaults (codes "server") (codes "port") (codes "70000")
    ≡ (true, record defaults { listen_port = 4464 })
unfolding config_ini_handler in_server bytes_eq to_unsigned_short stoi skip_space positive_int
    negative_int digits digits_from
port_wraps = refl
