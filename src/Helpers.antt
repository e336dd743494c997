-- ===== src/Helpers.antt =====
-- generator_helpers.h and cpp_generator_helpers.h of src/compiler: the string helpers of the code
-- generator. A `std::string` is the list of its bytes; an in-out pointer is an argument and a result.
pub mod Strip
pub mod Tokenize
pub mod Replace
pub mod Camel
pub mod Identifier
pub mod Descriptors
pub mod ClassNames
pub mod Comments
