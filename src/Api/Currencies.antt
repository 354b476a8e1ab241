-- ===== src/Api/Currencies.antt =====
-- internal/api/validation.go: the currency codes, and IsValidCurrency.
use ledger_pro.Prelude.Text.{codes, eq_codes}
use ledger_pro.Prelude.{
  ℕ, ◌-◌, String, Bool, ◌&&◌, List, [], ◌∷◌, map, leb, ◌==◌, if◌then◌else◌, exists_row,
}

abbrev pub valid_currencies : List String
valid_currencies =
    "AED" ∷ "AFN" ∷ "ALL" ∷ "AMD" ∷ "ANG" ∷ "AOA" ∷ "ARS" ∷ "AUD" ∷ "AWG" ∷ "AZN" ∷ "BAM" ∷ "BBD"
    ∷ "BDT" ∷ "BGN" ∷ "BHD" ∷ "BIF" ∷ "BMD" ∷ "BND" ∷ "BOB" ∷ "BRL" ∷ "BSD" ∷ "BTN" ∷ "BWP" ∷ "BYN"
    ∷ "BZD" ∷ "CAD" ∷ "CDF" ∷ "CHF" ∷ "CLP" ∷ "CNY" ∷ "COP" ∷ "CRC" ∷ "CUP" ∷ "CVE" ∷ "CZK" ∷ "DJF"
    ∷ "DKK" ∷ "DOP" ∷ "DZD" ∷ "EGP" ∷ "ERN" ∷ "ETB" ∷ "EUR" ∷ "FJD" ∷ "FKP" ∷ "GBP" ∷ "GEL" ∷ "GHS"
    ∷ "GIP" ∷ "GMD" ∷ "GNF" ∷ "GTQ" ∷ "GYD" ∷ "HKD" ∷ "HNL" ∷ "HRK" ∷ "HTG" ∷ "HUF" ∷ "IDR" ∷ "ILS"
    ∷ "INR" ∷ "IQD" ∷ "IRR" ∷ "ISK" ∷ "JMD" ∷ "JOD" ∷ "JPY" ∷ "KES" ∷ "KGS" ∷ "KHR" ∷ "KMF" ∷ "KPW"
    ∷ "KRW" ∷ "KWD" ∷ "KYD" ∷ "KZT" ∷ "LAK" ∷ "LBP" ∷ "LKR" ∷ "LRD" ∷ "LSL" ∷ "LYD" ∷ "MAD" ∷ "MDL"
    ∷ "MGA" ∷ "MKD" ∷ "MMK" ∷ "MNT" ∷ "MOP" ∷ "MRU" ∷ "MUR" ∷ "MVR" ∷ "MWK" ∷ "MXN" ∷ "MYR" ∷ "MZN"
    ∷ "NAD" ∷ "NGN" ∷ "NIO" ∷ "NOK" ∷ "NPR" ∷ "NZD" ∷ "OMR" ∷ "PAB" ∷ "PEN" ∷ "PGK" ∷ "PHP" ∷ "PKR"
    ∷ "PLN" ∷ "PYG" ∷ "QAR" ∷ "RON" ∷ "RSD" ∷ "RUB" ∷ "RWF" ∷ "SAR" ∷ "SBD" ∷ "SCR" ∷ "SDG" ∷ "SEK"
    ∷ "SGD" ∷ "SHP" ∷ "SLE" ∷ "SOS" ∷ "SRD" ∷ "SSP" ∷ "STN" ∷ "SYP" ∷ "SZL" ∷ "THB" ∷ "TJS" ∷ "TMT"
    ∷ "TND" ∷ "TOP" ∷ "TRY" ∷ "TTD" ∷ "TWD" ∷ "TZS" ∷ "UAH" ∷ "UGX" ∷ "USD" ∷ "UYU" ∷ "UZS" ∷ "VES"
    ∷ "VND" ∷ "VUV" ∷ "WST" ∷ "XAF" ∷ "XCD" ∷ "XOF" ∷ "XPF" ∷ "YER" ∷ "ZAR" ∷ "ZMW" ∷ "ZWL" ∷ []

-- strings.ToUpper, as far as it can give one of A to Z: the letters a to z, and the two other
-- characters whose upper case is ASCII, U+0131 and U+017F.
abbrev pub upper_code : ℕ → ℕ
upper_code c =
    if leb 97 c && leb c 122
    then c - 32
    else if c == 0x131
    then 73
    else if c == 0x17f
    then 83
    else c

unfoldable pub is_valid_currency : String → Bool
is_valid_currency s =
    exists_row (λ c. eq_codes (codes c) (map upper_code (codes s))) valid_currencies
