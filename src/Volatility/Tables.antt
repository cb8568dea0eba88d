-- ===== src/Volatility/Tables.antt =====
-- volatility.py: the functions and operators whose volatility is known.
use blastoise.Base.{List, [], ◌∷◌, Text, codes}

-- `VOLATILE_FUNCTIONS`.
unfoldable pub volatile_functions : List Text
volatile_functions =
    codes "random"
    ∷ codes "setseed"
    ∷ codes "gen_random_uuid"
    ∷ codes "gen_random_bytes"
    ∷ codes "gen_salt"
    ∷ codes "uuid_generate_v1"
    ∷ codes "uuid_generate_v1mc"
    ∷ codes "uuid_generate_v4"
    ∷ codes "uuidv4"
    ∷ codes "uuidv7"
    ∷ codes "nextval"
    ∷ codes "currval"
    ∷ codes "lastval"
    ∷ codes "setval"
    ∷ codes "clock_timestamp"
    ∷ codes "timeofday"
    ∷ codes "txid_current"
    ∷ codes "pg_notify"
    ∷ []

-- `STABLE_FUNCTIONS`.
unfoldable pub stable_functions : List Text
stable_functions =
    codes "now"
    ∷ codes "transaction_timestamp"
    ∷ codes "statement_timestamp"
    ∷ codes "current_timestamp"
    ∷ codes "current_date"
    ∷ codes "current_time"
    ∷ codes "localtimestamp"
    ∷ codes "localtime"
    ∷ codes "current_setting"
    ∷ codes "current_schema"
    ∷ codes "current_database"
    ∷ codes "current_user"
    ∷ codes "session_user"
    ∷ codes "to_char"
    ∷ codes "format"
    ∷ codes "concat"
    ∷ codes "concat_ws"
    ∷ codes "array_to_string"
    ∷ []

-- `IMMUTABLE_FUNCTIONS`.
unfoldable pub immutable_functions : List Text
immutable_functions =
    codes "abs"
    ∷ codes "ceil"
    ∷ codes "ceiling"
    ∷ codes "floor"
    ∷ codes "round"
    ∷ codes "trunc"
    ∷ codes "sign"
    ∷ codes "sqrt"
    ∷ codes "power"
    ∷ codes "exp"
    ∷ codes "ln"
    ∷ codes "log"
    ∷ codes "mod"
    ∷ codes "length"
    ∷ codes "char_length"
    ∷ codes "character_length"
    ∷ codes "octet_length"
    ∷ codes "lower"
    ∷ codes "upper"
    ∷ codes "initcap"
    ∷ codes "btrim"
    ∷ codes "ltrim"
    ∷ codes "rtrim"
    ∷ codes "lpad"
    ∷ codes "rpad"
    ∷ codes "left"
    ∷ codes "right"
    ∷ codes "repeat"
    ∷ codes "replace"
    ∷ codes "reverse"
    ∷ codes "substr"
    ∷ codes "substring"
    ∷ codes "split_part"
    ∷ codes "strpos"
    ∷ codes "position"
    ∷ codes "translate"
    ∷ codes "md5"
    ∷ codes "sha224"
    ∷ codes "sha256"
    ∷ codes "sha384"
    ∷ codes "sha512"
    ∷ codes "digest"
    ∷ codes "hmac"
    ∷ codes "encode"
    ∷ codes "decode"
    ∷ codes "greatest"
    ∷ codes "least"
    ∷ codes "array_length"
    ∷ codes "cardinality"
    ∷ codes "string_to_array"
    ∷ codes "timezone"
    ∷ codes "crypt"
    ∷ codes "tstzrange"
    ∷ codes "tsrange"
    ∷ codes "numrange"
    ∷ codes "daterange"
    ∷ codes "int4range"
    ∷ codes "int8range"
    ∷ []

-- `_KNOWN_OPERATORS`.
unfoldable pub known_operators : List Text
known_operators =
    codes "+"
    ∷ codes "-"
    ∷ codes "*"
    ∷ codes "/"
    ∷ codes "%"
    ∷ codes "^"
    ∷ codes "||"
    ∷ codes "|/"
    ∷ codes "||/"
    ∷ codes "@"
    ∷ codes "="
    ∷ codes "<>"
    ∷ codes "!="
    ∷ codes "<"
    ∷ codes ">"
    ∷ codes "<="
    ∷ codes ">="
    ∷ codes "~"
    ∷ codes "~*"
    ∷ codes "!~"
    ∷ codes "!~*"
    ∷ codes "~~"
    ∷ codes "~~*"
    ∷ codes "!~~"
    ∷ codes "!~~*"
    ∷ codes "@>"
    ∷ codes "<@"
    ∷ codes "&&"
    ∷ codes "->"
    ∷ codes "->>"
    ∷ codes "#>"
    ∷ codes "#>>"
    ∷ codes "?"
    ∷ codes "?|"
    ∷ codes "?&"
    ∷ codes "#-"
    ∷ codes "|"
    ∷ codes "&"
    ∷ codes "#"
    ∷ codes "<<"
    ∷ codes ">>"
    ∷ codes "!"
    ∷ codes "BETWEEN"
    ∷ codes "NOT BETWEEN"
    ∷ codes "BETWEEN SYMMETRIC"
    ∷ codes "NOT BETWEEN SYMMETRIC"
    ∷ []
