-- ===== src/Tests/Readers.antt =====
-- A JSON library, and an order that is read back.
use aex_cpp_sdk.Base.{
  ℕ, ℤ, ◌<◌, ◌^◌, ◌≡◌, refl, ap, ◌∙◌, arith, List, [], ◌∷◌, ◌++◌, Bool, true, false, inl, bytes_eq,
  if◌then◌else◌, Option, none, some, replicate,
}
use aex_cpp_sdk.Messages.{send_order}
use aex_cpp_sdk.Serialization.{JsonLibrary, order_json}
use aex_cpp_sdk.Serialization.Arrays.{Appends}
use aex_cpp_sdk.Serialization.Objects.{◌>>=◌, JsonReader, last_value, assign, Readable, IsKeyHash}
use aex_cpp_sdk.Serialization.Reading.{IsAddressed, read_outcome, kept}
use aex_cpp_sdk.Serialization.Reading.Orders.{read_outcome-order_json}
use aex_cpp_sdk.Tests.Orders.{payment}

-- JSON values: an array element by element, an object assignment by assignment.
data Json : Type 0 where
  json_null : Json
  json_number : ℤ → Json
  json_text : List ℕ → Json
  json_end : Json
  json_element : Json → Json → Json
  json_field : Json → List ℕ → Json → Json

write_array : List Json → Json
write_array [] = json_end
write_array (j ∷ js) = json_element j (write_array js)

add_element : Json → Json → Json
add_element json_end k = json_element k json_end
add_element (json_element i j) k = json_element i (add_element j k)
add_element j k = j

find_field : Json → List ℕ → Option Json
find_field (json_field j name value) key =
    if bytes_eq name key then some value else find_field j key
find_field j key = none

read_array : Json → Option (List Json)
read_array json_end = some []
read_array (json_element i j) = read_array j >>= λ js. some (i ∷ js)
read_array j = none

read_text : Json → Option (List ℕ)
read_text (json_text text) = some text
read_text j = none

read_number : Json → Option ℤ
read_number (json_number n) = some n
read_number j = none

abbrev library : JsonLibrary Json
library = record {
  null = json_null;
  number = json_number;
  string = json_text;
  array = write_array;
  set = json_field;
  push_back = add_element;
  dump = λ j. none;
}

abbrev reader : JsonReader Json
reader = record {
  find = find_field;
  as_string = read_text;
  as_number = read_number;
  as_array = read_array;
}

add_element-write_array :
    (js : List Json) (j : Json) → add_element (write_array js) j ≡ write_array (js ++ (j ∷ []))
unfolding add_element write_array
add_element-write_array [] j = refl
add_element-write_array (i ∷ js) j = ap (json_element i) (add_element-write_array js j)

read_array-write_array : (js : List Json) → read_array (write_array js) ≡ some js
unfolding read_array write_array
read_array-write_array [] = refl
read_array-write_array (j ∷ js) = rw (read_array-write_array js) refl

abbrev or_else : Option Json → Option Json → Option Json
or_else none k = k
or_else (some j) k = some j

or_else-none : (o : Option Json) → or_else o none ≡ o
or_else-none none = refl
or_else-none (some j) = refl

find_field-assign :
    (j : Json) (fields : List (List ℕ × Json)) (key : List ℕ)
    → find_field (assign library reader j fields) key
      ≡ or_else (last_value fields key) (find_field j key)
unfolding find_field assign last_value
find_field-assign j [] key = refl
find_field-assign j ((name, value) ∷ fields) key =
    find_field-assign (json_field j name value) fields key
    ∙ cases (last_value fields key) (bytes_eq name key)
  where
    cases :
        (later : Option Json) (same : Bool)
        → or_else later (if same then some value else find_field j key)
          ≡ or_else
              (elim later [ none ↦ if same then some value else none | some k ↦ some k ])
              (find_field j key)
    cases none true = refl
    cases none false = refl
    cases (some k) same = refl

library-Readable : Readable library reader
unfolding find_field read_text read_number
library-Readable = record {
  fields =
      λ fields key. find_field-assign json_null fields key ∙ or_else-none (last_value fields key);
  strings = λ text. refl;
  numbers = λ n. refl;
  arrays = read_array-write_array;
}

library-Appends : Appends library
library-Appends = record { appends = add_element-write_array }

replicate-IsKeyHash : (x : ℕ) → x < 2 ^ 8 → IsKeyHash (replicate 20 x)
replicate-IsKeyHash x h = record {
  network = inl refl;
  bytes = omega (arith, h);
  long = omega arith;
  short = omega arith;
}

read_outcome-order_json_example :
    read_outcome library reader (order_json library (send_order payment))
    ≡ some (send_order payment)
unfolding kept IsAddressed
read_outcome-order_json_example =
    read_outcome-order_json library reader library-Appends library-Readable (send_order payment)
      ((replicate-IsKeyHash 7 (omega arith), tt), (replicate-IsKeyHash 9 (omega arith), tt))
