-- ===== src/Text/Decimal.antt =====
-- Numbers in decimal: the verb %d of package fmt, and strconv.ParseUint(s, 10, 64).
mod RoundTrip
pub use RoundTrip.{IsDigit, value, parse_uint-format, parse_uint_iff, format_inj}
mod Defs
pub use Defs.{u64_mod, format, parse_uint}
