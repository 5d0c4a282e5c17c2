-- ===== src/Core/Filename/Examples.antt =====
-- Names of filename.rs.
use ai_model_downloader.Base.{nat_eq, string_eq, ℕ, ◌≡◌, refl, Option, some, List, [], Texts, codes}
use ai_model_downloader.Core.Filename.{
  is_whitespace, is_dangerous, first_pass, trim, trim_first, trim_last, filtered, split_from,
  split_whitespace, all_dots, without_dots, join, unknown, sanitize_filename,
}
use ai_model_downloader.Core.Filename.Extract.{
  hex_digit, parse_hex_pair, decode_bytes, after_last, percent_decode, scan,
  parse_content_disposition, extract_filename, extract_filename_from_url,
}
use ai_model_downloader.Core.Filename.Safe.{IsName, extract_filename-IsName}

climbs : sanitize_filename (codes "../../etc/passwd") ≡ codes "etc passwd"
unfolding sanitize_filename first_pass trim trim_first trim_last is_whitespace filtered is_dangerous
    split_whitespace split_from without_dots all_dots join
climbs = refl

only_dots : sanitize_filename (codes " .... ") ≡ unknown
unfolding sanitize_filename first_pass trim trim_first trim_last is_whitespace filtered is_dangerous
    split_whitespace split_from without_dots all_dots join
only_dots = refl

abbrev ascii : List ℕ → Option Texts
ascii bytes = some bytes

abbrev bytes : Texts → List ℕ
bytes t = t

abbrev no_path : Texts → Option Texts
no_path url = some url

abbrev header : Texts
header = codes "attachment; filename=\"x\"; filename*=UTF-8''a%2Fb.bin"

from_header : extract_filename ascii bytes no_path [] (some header) ≡ codes "a b.bin"
unfolding extract_filename extract_filename_from_url parse_content_disposition scan percent_decode
    decode_bytes parse_hex_pair hex_digit after_last sanitize_filename first_pass trim trim_first
    trim_last is_whitespace filtered is_dangerous split_whitespace split_from without_dots all_dots
    join
from_header = refl

extract_filename-IsName_example :
    IsName (extract_filename ascii bytes no_path [] (some header))
    × IsName (extract_filename_from_url ascii bytes no_path [])
extract_filename-IsName_example = extract_filename-IsName ascii bytes no_path [] (some header)
