-- ===== src/Lexer/Token.antt =====
-- src/lexer.rs: tokens. The text of a token is the list of its UTF-8 bytes.
use pocket_rust.Prelude.{ℕ, List, String}
use pocket_rust.Span.{Span}

pub data TokenKind : Type 0 where
  kw_fn kw_mod kw_struct kw_let kw_mut kw_move kw_const kw_as : TokenKind
  kw_unsafe kw_impl kw_trait kw_dyn kw_for kw_in kw_self_lower kw_self_upper : TokenKind
  kw_if kw_else kw_true kw_false kw_use kw_pub kw_enum kw_match : TokenKind
  kw_ref kw_while kw_break kw_continue kw_type kw_where kw_return question : TokenKind
  builtin langle rangle lparen rparen lbrace rbrace lbracket : TokenKind
  rbracket arrow semi colon dot path_sep comma amp : TokenKind
  star plus minus slash percent bang eq_eq not_eq : TokenKind
  lt_eq gt_eq eq plus_eq minus_eq star_eq slash_eq percent_eq : TokenKind
  and_and or_or underscore pipe at hash dot_dot dot_dot_eq : TokenKind
  fat_arrow : TokenKind
  ident : List ℕ → TokenKind
  lifetime : List ℕ → TokenKind
  int_lit : ℕ → TokenKind
  char_lit : ℕ → TokenKind
  str_lit : List ℕ → TokenKind

pub record Token : Type 0 where
  pub kind : TokenKind
  pub span : Span

unfoldable pub token_kind_name : TokenKind → String
token_kind_name kw_fn = "`fn`"
token_kind_name kw_mod = "`mod`"
token_kind_name kw_struct = "`struct`"
token_kind_name kw_let = "`let`"
token_kind_name kw_mut = "`mut`"
token_kind_name kw_move = "`move`"
token_kind_name kw_const = "`const`"
token_kind_name kw_as = "`as`"
token_kind_name kw_unsafe = "`unsafe`"
token_kind_name kw_impl = "`impl`"
token_kind_name kw_trait = "`trait`"
token_kind_name kw_dyn = "`dyn`"
token_kind_name kw_type = "`type`"
token_kind_name kw_where = "`where`"
token_kind_name kw_return = "`return`"
token_kind_name question = "`?`"
token_kind_name kw_for = "`for`"
token_kind_name kw_in = "`in`"
token_kind_name kw_self_lower = "`self`"
token_kind_name kw_self_upper = "`Self`"
token_kind_name kw_if = "`if`"
token_kind_name kw_else = "`else`"
token_kind_name kw_true = "`true`"
token_kind_name kw_false = "`false`"
token_kind_name kw_use = "`use`"
token_kind_name kw_pub = "`pub`"
token_kind_name kw_enum = "`enum`"
token_kind_name kw_match = "`match`"
token_kind_name kw_ref = "`ref`"
token_kind_name kw_while = "`while`"
token_kind_name kw_break = "`break`"
token_kind_name kw_continue = "`continue`"
token_kind_name builtin = "`¤`"
token_kind_name langle = "`<`"
token_kind_name rangle = "`>`"
token_kind_name (ident _) = "identifier"
token_kind_name (lifetime _) = "lifetime"
token_kind_name lparen = "`(`"
token_kind_name rparen = "`)`"
token_kind_name lbracket = "`[`"
token_kind_name rbracket = "`]`"
token_kind_name lbrace = "`{`"
token_kind_name rbrace = "`}`"
token_kind_name arrow = "`->`"
token_kind_name semi = "`;`"
token_kind_name colon = "`:`"
token_kind_name dot = "`.`"
token_kind_name path_sep = "`::`"
token_kind_name comma = "`,`"
token_kind_name amp = "`&`"
token_kind_name star = "`*`"
token_kind_name plus = "`+`"
token_kind_name minus = "`-`"
token_kind_name slash = "`/`"
token_kind_name percent = "`%`"
token_kind_name bang = "`!`"
token_kind_name eq_eq = "`==`"
token_kind_name plus_eq = "`+=`"
token_kind_name minus_eq = "`-=`"
token_kind_name star_eq = "`*=`"
token_kind_name slash_eq = "`/=`"
token_kind_name percent_eq = "`%=`"
token_kind_name and_and = "`&&`"
token_kind_name or_or = "`||`"
token_kind_name not_eq = "`!=`"
token_kind_name lt_eq = "`<=`"
token_kind_name gt_eq = "`>=`"
token_kind_name eq = "`=`"
token_kind_name underscore = "`_`"
token_kind_name pipe = "`|`"
token_kind_name at = "`@`"
token_kind_name hash = "`#`"
token_kind_name dot_dot = "`..`"
token_kind_name dot_dot_eq = "`..=`"
token_kind_name fat_arrow = "`=>`"
token_kind_name (int_lit _) = "integer literal"
token_kind_name (char_lit _) = "character literal"
token_kind_name (str_lit _) = "string literal"
