-- ===== src/Wasm/Format/Whole/RoundTrip.antt =====
-- The whole module is read back from what `Module::encode` writes.
use pocket_rust.Prelude.{
  is_empty, ◌≡◌, inl, refl, ap, ◌∙◌, true, not, some, [], ◌++◌, length, arith,
}
use pocket_rust.Wasm.Leb.{write_uleb128}
use pocket_rust.Wasm.Leb.Unsigned.{read_u}
use pocket_rust.Wasm.Types.{Module}
use pocket_rust.Wasm.Reader.{read_vec, read_sized, read_optional}
use pocket_rust.Wasm.Reader.Laws.{Appends-u32}
use pocket_rust.Wasm.Encode.{header, encode}
use pocket_rust.Wasm.Sections.{
  encode_type_section, encode_import_section, encode_function_section, encode_memory_section,
  encode_global_section, encode_export_section, encode_element_section, encode_code_section,
  encode_data_section, encode_func_type, encode_import, encode_memory, encode_global, encode_export,
  encode_func_body, encode_data,
}
use pocket_rust.Wasm.Format.{
  read_func_type, read_import, read_limits, read_table, read_element, read_global, read_export,
  read_body, read_data,
}
use pocket_rust.Wasm.Format.Items.{
  Appends-func_type, Reads-func_type, Appends-import, Reads-import, Appends-memory, Reads-memory,
}
use pocket_rust.Wasm.Format.Globals.{Appends-global, Reads-global, Appends-export, Reads-export}
use pocket_rust.Wasm.Format.Bodies.{Appends-func_body, Reads-func_body, Appends-data, Reads-data}
use pocket_rust.Wasm.Format.Whole.{table_of, table_fits, fail_unless, read_module, ModuleInRange}
use pocket_rust.Wasm.Format.Whole.Sections.{
  StartsAbove, StartsAbove-present, payload-fits, read_section, read_vec_section, eq_nil_of_absent,
}
use pocket_rust.Wasm.Format.Whole.Bytes.{
  All-map, encode_lem, imports_payload, functions_payload, table_payload, memories_payload,
  globals_payload, exports_payload, elements_payload, code_payload, datas_payload, from_datas,
  from_code, from_elements, from_exports, from_globals, from_memories, from_table, from_functions,
  from_imports, from_types, Reads-table_payload, table_payload-fits, Reads-elements_payload,
  All-Reads-u32,
}
use pocket_rust.Wasm.Format.Whole.Yields.{Yields, Yields-bind, Yields-then, Reads-header}

module _ (m : Module) (h : ModuleInRange m) where
  -- After each section stands one of a larger number, or nothing.
  above_11 : StartsAbove 11 []
  above_11 = inl refl

  above_10 : StartsAbove 10 (from_datas m)
  above_10 =
      StartsAbove-present 10 11 (not (is_empty m.datas)) (datas_payload m) [] (omega arith) above_11

  above_9 : StartsAbove 9 (from_code m)
  above_9 =
      StartsAbove-present 9 10 (not (is_empty m.code)) (code_payload m) (from_datas m) (omega arith)
        above_10

  above_7 : StartsAbove 7 (from_elements m)
  above_7 =
      StartsAbove-present 7 9 (not (is_empty m.func_table)) (elements_payload m) (from_code m)
        (omega arith) above_9

  above_6 : StartsAbove 6 (from_exports m)
  above_6 =
      StartsAbove-present 6 7 (not (is_empty m.exports)) (exports_payload m) (from_elements m)
        (omega arith) above_7

  above_5 : StartsAbove 5 (from_globals m)
  above_5 =
      StartsAbove-present 5 6 (not (is_empty m.globals)) (globals_payload m) (from_exports m)
        (omega arith) above_6

  above_4 : StartsAbove 4 (from_memories m)
  above_4 =
      StartsAbove-present 4 5 (not (is_empty m.memories)) (memories_payload m) (from_globals m)
        (omega arith) above_5

  above_3 : StartsAbove 3 (from_table m)
  above_3 =
      StartsAbove-present 3 4 (not (is_empty m.func_table)) (table_payload m) (from_memories m)
        (omega arith) above_4

  above_2 : StartsAbove 2 (from_functions m)
  above_2 =
      StartsAbove-present 2 3 (not (is_empty m.functions)) (functions_payload m) (from_table m)
        (omega arith) above_3

  above_1 : StartsAbove 1 (from_imports m)
  above_1 =
      StartsAbove-present 1 2 (not (is_empty m.imports)) (imports_payload m) (from_functions m)
        (omega arith) above_2

  types_read :
      Yields (read_optional 1 [] (read_vec read_func_type)) (from_types m) m.types (from_imports m)
  unfolding encode_type_section
  types_read = record {
    yields =
        read_vec_section encode_func_type Appends-func_type read_func_type 1 m.types
          (from_imports m) h.types_short (All-map Reads-func_type m.types h.types_in_range)
          h.types_fit above_1;
  }

  imports_read :
      Yields
        (read_optional 2 [] (read_vec read_import))
        (from_imports m)
        m.imports
        (from_functions m)
  unfolding encode_import_section
  imports_read = record {
    yields =
        read_vec_section encode_import Appends-import read_import 2 m.imports (from_functions m)
          h.imports_short (All-map Reads-import m.imports h.imports_in_range) h.imports_fit above_2;
  }

  functions_read :
      Yields
        (read_optional 3 [] (read_vec (read_u 32)))
        (from_functions m)
        m.functions
        (from_table m)
  unfolding encode_function_section
  functions_read = record {
    yields =
        read_vec_section write_uleb128 Appends-u32 (read_u 32) 3 m.functions (from_table m)
          h.functions_short (All-Reads-u32 m.functions h.functions_in_range) h.functions_fit
          above_3;
  }

  table_read :
      Yields
        (read_optional 4 (table_of 0) read_table)
        (from_table m)
        (table_of (length m.func_table))
        (from_memories m)
  table_read = record {
    yields =
        read_section 4 (table_of 0) read_table (not (is_empty m.func_table)) (table_payload m)
          (from_memories m) (table_of (length m.func_table))
          (λ e. ap (λ xs. table_of (length xs)) (eq_nil_of_absent m.func_table e))
          (λ _. Reads-table_payload m h) (table_payload-fits m) above_4;
  }

  memories_read :
      Yields
        (read_optional 5 [] (read_vec read_limits))
        (from_memories m)
        m.memories
        (from_globals m)
  unfolding encode_memory_section
  memories_read = record {
    yields =
        read_vec_section encode_memory Appends-memory read_limits 5 m.memories (from_globals m)
          h.memories_short (All-map Reads-memory m.memories h.memories_in_range) h.memories_fit
          above_5;
  }

  globals_read :
      Yields (read_optional 6 [] (read_vec read_global)) (from_globals m) m.globals (from_exports m)
  unfolding encode_global_section
  globals_read = record {
    yields =
        read_vec_section encode_global Appends-global read_global 6 m.globals (from_exports m)
          h.globals_short (All-map Reads-global m.globals h.globals_in_range) h.globals_fit above_6;
  }

  exports_read :
      Yields
        (read_optional 7 [] (read_vec read_export))
        (from_exports m)
        m.exports
        (from_elements m)
  unfolding encode_export_section
  exports_read = record {
    yields =
        read_vec_section encode_export Appends-export read_export 7 m.exports (from_elements m)
          h.exports_short (All-map Reads-export m.exports h.exports_in_range) h.exports_fit above_7;
  }

  elements_read :
      Yields (read_optional 9 [] read_element) (from_elements m) m.func_table (from_code m)
  unfolding encode_element_section
  elements_read = record {
    yields =
        read_section 9 [] read_element (not (is_empty m.func_table)) (elements_payload m)
          (from_code m) m.func_table (eq_nil_of_absent m.func_table)
          (λ _. Reads-elements_payload m h) (payload-fits 9 (elements_payload m) h.elements_fit)
          above_9;
  }

  code_read :
      Yields
        (read_optional 10 [] (read_vec (read_sized read_body)))
        (from_code m)
        m.code
        (from_datas m)
  unfolding encode_code_section
  code_read = record {
    yields =
        read_vec_section encode_func_body Appends-func_body (read_sized read_body) 10 m.code
          (from_datas m) h.code_short (All-map Reads-func_body m.code h.code_in_range) h.code_fits
          above_10;
  }

  datas_read : Yields (read_optional 11 [] (read_vec read_data)) (from_datas m) m.datas []
  unfolding encode_data_section
  datas_read = record {
    yields =
        read_vec_section encode_data Appends-data read_data 11 m.datas [] h.datas_short
          (All-map Reads-data m.datas h.datas_in_range) h.datas_fit above_11;
  }

  table_fits_lem : table_fits (table_of (length m.func_table)) m.func_table ≡ true
  unfolding table_fits
  table_fits_lem = ground arith

  last_read :
      Yields (fail_unless (table_fits (table_of (length m.func_table)) m.func_table) m) [] m []
  unfolding fail_unless
  last_read = record { yields = rw table_fits_lem }

  sections_read : Yields read_module (header ++ from_types m) m []
  unfolding read_module
  sections_read =
      Yields-then (record { yields = Reads-header.reads (from_types m) })
        (Yields-bind _ types_read (
          Yields-bind _ imports_read (
            Yields-bind _ functions_read (
              Yields-bind _ table_read (
                Yields-bind _ memories_read (
                  Yields-bind _ globals_read (
                    Yields-bind _ exports_read (
                      Yields-bind _ elements_read
                        (Yields-bind _ code_read (Yields-bind _ datas_read last_read))))))))))

  -- A module whose parts are in range is read back from the bytes that `encode` writes, up to the
  -- last byte, and the table section agrees with the elements.
  pub read_module-encode : read_module (encode m) ≡ some (m, [])
  read_module-encode = ap read_module (encode_lem m) ∙ sections_read.yields
