-- ===== src/Tests/Printing.antt =====
-- A printer of JSON values, for the runs that need a digest.
use agent_verification_proto.Base.{String, if◌then◌else◌}
use agent_verification_proto.Base.Text.{◌<>◌}
use agent_verification_proto.Base.Integers.{str_int}
use agent_verification_proto.Base.Json.{
  Value, null, bool, num, float, string, arr, obj, Items, cons, nil, Fields, field, end,
}

unfoldable mutual
  pub print : Value → String
  print null = "n"
  print (bool b) = if b then "t" else "f"
  print (num n) = str_int n
  print (float numeral) = numeral
  print (string s) = "'" <> (s <> "'")
  print (arr items) = "[" <> (print_items items <> "]")
  print (obj fields) = "{" <> (print_fields fields <> "}")

  pub print_items : Items → String
  print_items nil = ""
  print_items (cons item items) = print item <> ("," <> print_items items)

  pub print_fields : Fields → String
  print_fields end = ""
  print_fields (field key held others) =
      key <> (":" <> (print held <> ("," <> print_fields others)))
